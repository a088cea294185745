-- ===== src/Server/Reads.antt =====
-- Which handlers only read the cluster: internal/api/handlers.go and internal/api/server.go.
use kimo.Prelude.{
  ℕ, String, ◌==◌, Bool, true, false, Option, none, some, List, ◌≡◌, refl, Result, Bool-cases, inl,
  inr,
}
use kimo.Types.{PowSpec}
use kimo.Cluster.{
  get_template, get_instance, list_templates, list_instances, Request, Exchange, Api, GoError, call,
  is_not_found,
}
use kimo.Cluster.Log.{Extends, same, more, Extends-trans}
use kimo.Cluster.Returns.{Returns-call}
use kimo.Integrations.Backend.{Backend}
use kimo.Server.State.{Response, State, Action, calling, calling-Returns}
use kimo.Server.Puzzles.{store_pow}
use kimo.Server.Handlers.{
  missing_or_internal, list_all_templates, with_template, with_instance, template_by_name,
  instance_by_name, list_some_instances, issue, puzzle_for, pow_challenge,
}
use kimo.Server.Routes.{Route, handle}

-- The routes that the table registers for GET.
abbrev pub is_get : Route → Bool
is_get Route.health = true
is_get Route.list_templates = true
is_get (Route.get_template name) = true
is_get (Route.list_instances q) = true
is_get (Route.get_instance name) = true
is_get (Route.get_pow_challenge name) = true
is_get _ = false

abbrev is_read : Request → Bool
is_read (get_template k) = true
is_read (get_instance k) = true
is_read (list_templates n) = true
is_read (list_instances n l) = true
is_read _ = false

abbrev pub IsRead : Exchange → Type 0
IsRead x = is_read x.request ≡ true

module _ {W E : Type 0} (api : Api W E) where
  abbrev Reading : List Exchange → Response × State W → Type 0
  Reading old x = Extends IsRead old x.1.sys.log

  calling-Reading :
      {A : Type 0} (q : Request) (f : W → Result E A × W) (go : A → Action W Response)
      (g : GoError E → Action W Response) (st : State W)
      → is_read q ≡ true
      → ((a : A) (st' : State W) → Reading st'.sys.log (go a st'))
      → ((e : GoError E) (st' : State W) → Reading st'.sys.log (g e st'))
      → Reading st.sys.log (calling (call q f) go g st)
  calling-Reading q f go g st read kf kg =
      calling-Returns (call q f) go g st (Reading st.sys.log) (Returns-call q f st.sys)
        (λ a s h. Extends-trans (rw h (more read same)) (kf a (record st { sys = s })))
        (λ e s h. Extends-trans (rw h (more read same)) (kg e (record st { sys = s })))

  missing_or_internal-Reading :
      (text : String) (e : GoError E) (st : State W)
      → Reading st.sys.log (missing_or_internal api text e st)
  unfolding missing_or_internal
  missing_or_internal-Reading text e st = elim (Bool-cases (is_not_found api e)) [
    | inl y ↦ rw (missing_or_internal, y) same
    | inr n ↦ rw (missing_or_internal, n) same
  ]

  puzzle_for-Reading :
      (o : Option PowSpec) (st : State W) → Reading st.sys.log (puzzle_for api o st)
  unfolding puzzle_for issue store_pow
  puzzle_for-Reading none st = same
  puzzle_for-Reading (some spec) st = elim (Bool-cases spec.enabled) [
    | inl y ↦ rw (puzzle_for, y) same
    | inr n ↦ rw (puzzle_for, n) same
  ]

  pow_challenge-Reading :
      (name : String) (st : State W) → Reading st.sys.log (pow_challenge api name st)
  unfolding pow_challenge with_template
  pow_challenge-Reading name st = elim (Bool-cases (name == "")) [
    | inl y ↦ rw (pow_challenge, y) same
    | inr n ↦
        rw (pow_challenge, n)
          (calling-Reading _ _ _ _ st refl (λ t. puzzle_for-Reading t.spec.pow)
            (missing_or_internal-Reading "template not found"))
  ]

  -- A GET request makes only calls that read templates and instances.
  pub handle-IsRead :
      (sha256 : String → List ℕ) (backend : Backend W E) (route : Route) (st : State W)
      → is_get route ≡ true
      → Extends IsRead st.sys.log (handle sha256 api backend route st).1.sys.log
  unfolding handle list_all_templates template_by_name list_some_instances instance_by_name
      with_template with_instance
  handle-IsRead sha256 backend Route.health st h = same
  handle-IsRead sha256 backend Route.list_templates st h =
      calling-Reading _ _ _ _ st refl (λ a s. same) (λ e s. same)
  handle-IsRead sha256 backend (Route.get_template name) st h =
      calling-Reading _ _ _ _ st refl (λ a s. same)
        (missing_or_internal-Reading "template not found")
  handle-IsRead sha256 backend (Route.list_instances q) st h =
      calling-Reading _ _ _ _ st refl (λ a s. same) (λ e s. same)
  handle-IsRead sha256 backend (Route.get_instance name) st h =
      calling-Reading _ _ _ _ st refl (λ a s. same)
        (missing_or_internal-Reading "instance not found")
  handle-IsRead sha256 backend (Route.get_pow_challenge name) st h = pow_challenge-Reading name st
  handle-IsRead sha256 backend _ st h = cc
