-- ===== src/Server/Access.antt =====
-- Who may call the API: internal/api/server.go and internal/api/middleware.go.
use kimo.Prelude.{
  ℕ, String, Bool, true, false, Option, none, some, List, Result, ◌≡◌, ◌≢◌, refl, arith, Bool-cases,
  Option-cases, inl, inr, is_ok, Result-cases, ◌⊎◌, ◌==◌, ◌||◌, ◌↔◌,
}
use kimo.Types.{PowSpec, ChallengeTemplate}
use kimo.Cluster.{Api, M, GoError, is_not_found, is_already_exists}
use kimo.Cluster.Returns.{Returns-trivial}
use kimo.Integrations.Backend.{HttpRequest, Backend}
use kimo.Server.State.{Response, State, Action, calling, calling-Returns}
use kimo.Server.Handlers.{
  missing_or_internal, list_all_templates, with_template, with_instance, template_by_name,
  instance_by_name, list_some_instances, remove_instance, write_ttl, extend_instance, issue,
  puzzle_for, pow_challenge,
}
use kimo.Server.Puzzles.{consume_pow}
use kimo.Server.Create.{
  CreateInstanceRequest, pow_required, exists_or_internal, place, place_if, redeem, admit,
  handle_create_instance,
}
use kimo.Server.Routes.{
  Route, health, list_templates, get_template, post_instance, list_instances, get_instance,
  delete_instance, patch_extend, get_pow_challenge, post_webhook, WebhookRequest, in_auth_group,
  outside, register_webhook, handle, auth_middleware, serve,
}

module _ {W E : Type 0} (sha256 : String → List ℕ) (api : Api W E) (backend : Backend W E) where
  -- No handler answers that the caller is unauthorized.
  abbrev Allowed : Response × State W → Type 0
  Allowed x = x.0.status ≢ 401

  calling-Allowed :
      {A : Type 0} (m : M W E A) (f : A → Action W Response) (g : GoError E → Action W Response)
      (st : State W)
      → ((a : A) (st' : State W) → Allowed (f a st'))
      → ((e : GoError E) (st' : State W) → Allowed (g e st'))
      → Allowed (calling m f g st)
  calling-Allowed m f g st kf kg =
      calling-Returns m f g st Allowed (Returns-trivial (m st.sys)) (λ a s q. kf a _)
        (λ e s q. kg e _)

  missing_or_internal-Allowed :
      (text : String) (e : GoError E) (st : State W) → Allowed (missing_or_internal api text e st)
  unfolding missing_or_internal
  missing_or_internal-Allowed text e st = elim (Bool-cases (is_not_found api e)) [
    | inl y ↦ rw (missing_or_internal, y) (ground arith)
    | inr n ↦ rw (missing_or_internal, n) (ground arith)
  ]

  with_template-Allowed :
      (name : String) (go : ChallengeTemplate → Action W Response) (st : State W)
      → ((t : ChallengeTemplate) (st' : State W) → Allowed (go t st'))
      → Allowed (with_template api name go st)
  unfolding with_template
  with_template-Allowed name go st h =
      calling-Allowed _ go _ st h (missing_or_internal-Allowed "template not found")

  exists_or_internal-Allowed :
      (e : GoError E) (st : State W) → Allowed (exists_or_internal sha256 api e st)
  unfolding exists_or_internal
  exists_or_internal-Allowed e st = elim (Bool-cases (is_already_exists api e)) [
    | inl y ↦ rw (exists_or_internal, y) (ground arith)
    | inr n ↦ rw (exists_or_internal, n) (ground arith)
  ]

  place_if-Allowed :
      (paid : Bool) (b : CreateInstanceRequest) (st : State W)
      → Allowed (place_if sha256 api paid b st)
  unfolding place_if place
  place_if-Allowed true b st =
      calling-Allowed _ _ _ st (λ i s. ground arith) exists_or_internal-Allowed
  place_if-Allowed false b st = ground arith

  redeem-Allowed :
      (required : Bool) (b : CreateInstanceRequest) (st : State W)
      → Allowed (redeem sha256 api required b st)
  unfolding redeem place_if
  redeem-Allowed false b st = place_if-Allowed true b st
  redeem-Allowed true b st =
      place_if-Allowed (consume_pow sha256 api b.pow_challenge b.pow_nonce st).0 b _

  admit-Allowed :
      (b : CreateInstanceRequest) (t : ChallengeTemplate) (st : State W)
      → Allowed (admit sha256 api b t st)
  unfolding admit
  admit-Allowed b t st = elim (Bool-cases t.status.ready) [
    | inl y ↦ rw (admit, y) (redeem-Allowed (pow_required t.spec.pow) b st)
    | inr n ↦ rw (admit, n) (ground arith)
  ]

  handle_create_instance-Allowed :
      (body : Option CreateInstanceRequest) (st : State W)
      → Allowed (handle_create_instance sha256 api body st)
  unfolding handle_create_instance
  handle_create_instance-Allowed none st = ground arith
  handle_create_instance-Allowed (some b) st =
      elim (Bool-cases (b.template == "" || b.team == "")) [
        | inl y ↦ rw (handle_create_instance, y) (ground arith)
        | inr n ↦
            rw (handle_create_instance, n)
              (with_template-Allowed b.template (admit sha256 api b) st (admit-Allowed b))
      ]

  extend_instance-Allowed :
      (body : Option String) (name : String) (st : State W)
      → Allowed (extend_instance api body name st)
  unfolding extend_instance with_instance write_ttl
  extend_instance-Allowed none name st = ground arith
  extend_instance-Allowed (some ttl) name st = elim (Option-cases (api.parse_duration ttl)) [
    | inl e ↦ rw (extend_instance, e) (ground arith)
    | inr (d, e) ↦
        rw (extend_instance, e)
          (calling-Allowed _ _ _ st
            (λ i st'. calling-Allowed _ _ _ st' (λ u s. ground arith) (λ x s. ground arith))
            (missing_or_internal-Allowed "instance not found"))
  ]

  puzzle_for-Allowed : (spec : Option PowSpec) (st : State W) → Allowed (puzzle_for api spec st)
  unfolding puzzle_for issue
  puzzle_for-Allowed none st = ground arith
  puzzle_for-Allowed (some spec) st = elim (Bool-cases spec.enabled) [
    | inl y ↦ rw (puzzle_for, y) (ground arith)
    | inr n ↦ rw (puzzle_for, n) (ground arith)
  ]

  pow_challenge-Allowed : (name : String) (st : State W) → Allowed (pow_challenge api name st)
  unfolding pow_challenge
  pow_challenge-Allowed name st = elim (Bool-cases (name == "")) [
    | inl y ↦ rw (pow_challenge, y) (ground arith)
    | inr n ↦
        rw (pow_challenge, n) (with_template-Allowed name _ st (λ t. puzzle_for-Allowed t.spec.pow))
  ]

  register_webhook-Allowed :
      (register : Option (String → String → W → Result E Unit × W)) (body : Option WebhookRequest)
      (st : State W)
      → Allowed (register_webhook sha256 api backend register body st)
  unfolding register_webhook
  register_webhook-Allowed none body st = ground arith
  register_webhook-Allowed (some register) none st = ground arith
  register_webhook-Allowed (some register) (some b) st =
      calling-Allowed _ _ _ st (λ u s. ground arith) (λ e s. ground arith)

  handle-Allowed : (route : Route) (st : State W) → Allowed (handle sha256 api backend route st)
  unfolding handle list_all_templates template_by_name list_some_instances instance_by_name
      remove_instance with_instance
  handle-Allowed health st = ground arith
  handle-Allowed list_templates st =
      calling-Allowed _ _ _ st (λ ts s. ground arith) (λ e s. ground arith)
  handle-Allowed (get_template name) st = with_template-Allowed name _ st (λ t s. ground arith)
  handle-Allowed (post_instance body) st = handle_create_instance-Allowed body st
  handle-Allowed (list_instances q) st =
      calling-Allowed _ _ _ st (λ is s. ground arith) (λ e s. ground arith)
  handle-Allowed (get_instance name) st =
      calling-Allowed _ _ _ st (λ i s. ground arith)
        (missing_or_internal-Allowed "instance not found")
  handle-Allowed (delete_instance name) st =
      calling-Allowed _ _ _ st (λ u s. ground arith)
        (missing_or_internal-Allowed "instance not found")
  handle-Allowed (patch_extend body name) st = extend_instance-Allowed body name st
  handle-Allowed (get_pow_challenge name) st = pow_challenge-Allowed name st
  handle-Allowed (post_webhook body) st = register_webhook-Allowed backend.register_webhook body st

  -- What a refused request leaves: no call in the log, and every puzzle.
  abbrev pub Refused : State W → Response × State W → Type 0
  Refused st x = (x.0.status ≡ 401) × (x.1.sys.log ≡ st.sys.log) × (x.1.puzzles ≡ st.puzzles)

  abbrev pub authenticated : HttpRequest → State W → Bool
  authenticated request st = is_ok (backend.authenticate request st.sys.world).0

  auth_middleware-cases :
      (request : HttpRequest) (route : Route) (st : State W)
      → ((authenticated request st ≡ true)
          × Allowed (
              auth_middleware sha256 api backend request (λ p. handle sha256 api backend route) st))
        ⊎ ((authenticated request st ≡ false)
            × Refused st (
                auth_middleware sha256 api backend request
                  (λ p. handle sha256 api backend route)
                  st))
  unfolding auth_middleware calling outside
  auth_middleware-cases request route st =
      elim (Result-cases (backend.authenticate request st.sys.world).0) [
        | inl (p, e) ↦
            rw (auth_middleware, calling, outside, e) (inl ((refl, handle-Allowed route _)))
        | inr (x, e) ↦ rw (auth_middleware, calling, outside, e) (inr ((refl, (refl, refl, refl))))
      ]

  abbrev Gated : Bool → Bool → State W → Response × State W → Type 0
  Gated guarded known st x =
      ((guarded ≡ true) × (known ≡ false) × Refused st x)
      ⊎ ((guarded ≡ false ⊎ known ≡ true) × Allowed x)

  serve-Gated :
      (request : HttpRequest) (route : Route) (st : State W)
      → Gated
          (in_auth_group route)
          (authenticated request st)
          st
          (serve sha256 api backend request route st)
  unfolding serve
  serve-Gated request route st = elim (Bool-cases (in_auth_group route)) [
    | inl y ↦ elim (auth_middleware-cases request route st) [
      | inl (e, other) ↦ rw (serve, y) (inr ((inr e, other)))
      | inr (e, refused) ↦ rw (serve, y) (inl ((refl, e, refused)))
    ]
    | inr n ↦ rw (serve, n) (inr ((inl refl, handle-Allowed route st)))
  ]

  -- A request is answered as unauthorized exactly if its route is not the health check and the
  -- backend rejects its credentials. A request that is answered so has made no call to the API
  -- server, and left every puzzle.
  pub serve-unauthorized_iff :
      (request : HttpRequest) (route : Route) (st : State W)
      → (((serve sha256 api backend request route st).0.status ≡ 401)
          ↔ ((in_auth_group route ≡ true) × (authenticated request st ≡ false)))
        × ((serve sha256 api backend request route st).0.status ≡ 401
            → Refused st (serve sha256 api backend request route st))
  serve-unauthorized_iff request route st = elim (serve-Gated request route st) [
    | inl (guarded, known, refused) ↦ (((λ e. (guarded, known)), (λ h. refused.0)), (λ e. refused))
    | inr (free, other) ↦ (((λ e. absurd (other e)), (λ h. ground arith)), (λ e. absurd (other e)))
  ]
