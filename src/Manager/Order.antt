-- ===== src/Manager/Order.antt =====
-- The order of the start: cmd/manager/main.go.
use kimo.Prelude.{
  String, Bool, true, false, List, [], ◌∷◌, ◌++◌, Result, ok, err, is_ok, ◌≡◌, refl, ap, ◌∙◌,
}
use mathlib.Core.List.{append_assoc}
use kimo.Integrations.Ctfd.{CtfdConfig}
use kimo.Integrations.Registry.{ScoringBackend, new}
use kimo.Cluster.{GoError}
use kimo.Manager.Flags.{Flags}
use kimo.Manager.Options.{manager_options}
use kimo.Manager.Startup.{
  Setup, new_manager, register, healthz_check, readyz_check, serve_and_start, Registration,
  template_reconciler, instance_reconciler, set_reconciler, fence_reconciler, lifecycle_reconciler,
  Runtime, Exit, Asked, Process, Boot, lifted, ended, last_words, or_exit, backend_name, go_on,
  ◌>>=◌, ◌>>◌, set_up, run_both, created, boot, choose_backend, main,
}

-- The plan, carried out in order up to the first step that fails, and whether none did.
pub data Along : List Setup → List Asked → Bool → Type 0 where
  finished : Along [] [] true
  stopped :
      (c : Setup) (left : List Setup)
      → Along (c ∷ left) (record { setup = c; succeeded = false } ∷ []) false
  onward :
      (c : Setup) {left : List Setup} {asked : List Asked} {b : Bool}
      → Along left asked b
      → Along (c ∷ left) (record { setup = c; succeeded = true } ∷ asked) b

Along-append :
    {p q : List Setup} {a a' : List Asked} {b b' : Bool}
    → Along p a b
    → b ≡ true
    → Along q a' b'
    → Along (p ++ q) (a ++ a') b'
Along-append finished e k = k
Along-append (stopped c left) e k = cc
Along-append (onward c h) e k = onward c (Along-append h e k)

Along-stopped :
    {p : List Setup} {a : List Asked} {b : Bool} (q : List Setup)
    → Along p a b
    → b ≡ false
    → Along (p ++ q) a false
Along-stopped q finished e = cc
Along-stopped q (stopped c left) e = stopped c (left ++ q)
Along-stopped q (onward c h) e = onward c (Along-stopped q h e)

one_step : (c : Setup) (b : Bool) → Along (c ∷ []) (record { setup = c; succeeded = b } ∷ []) b
one_step c true = onward c finished
one_step c false = stopped c []

module _ {E : Type 0} where
  is_ok-or_exit :
      {A : Type 0} (message about : String) (r : Result (GoError E) A)
      → is_ok (or_exit message about r) ≡ is_ok r
  is_ok-or_exit message about (ok a) = refl
  is_ok-or_exit message about (err e) = refl

  is_ok-lifted : (r : Result E Unit) → is_ok (lifted r) ≡ is_ok r
  is_ok-lifted (ok a) = refl
  is_ok-lifted (err e) = refl

module _ {W E : Type 0} where
  -- Whatever is asked of the world, the action goes along the plan.
  abbrev Goes : {A : Type 0} → List Setup → Process W → Result (Exit E) A × Process W → Type 0
  Goes p s (r, s') = (asked : List Asked) × (s'.trace ≡ s.trace ++ asked) × Along p asked (is_ok r)

  abbrev Follows : {A : Type 0} → List Setup → Boot W E A → Type 0
  Follows p m = (s : Process W) → Goes p s (m s)

  go_on-Goes :
      {A B : Type 0} {p q : List Setup} (f : A → Boot W E B) (s : Process W)
      (x : Result (Exit E) A × Process W)
      → Goes p s x
      → ((a : A) → x.0 ≡ ok a → Follows q (f a))
      → Goes (p ++ q) s (go_on x.0 f x.1)
  go_on-Goes f s (ok a, s') (asked, e, h) k =
      let (asked', e', h') = k a refl s' in
      (
        asked ++ asked',
        e' ∙ ap (λ t. t ++ asked') e ∙ append_assoc s.trace asked asked',
        Along-append h refl h',
      )
  go_on-Goes {q} f s (err x, s') (asked, e, h) k = (asked, e, Along-stopped q h refl)

  Follows-then :
      {A B : Type 0} {p q : List Setup} (m : Boot W E A) (n : Boot W E B)
      → Follows p m
      → Follows q n
      → Follows (p ++ q) (m >> n)
  unfolding ◌>>=◌ ◌>>◌
  Follows-then m n h k s = go_on-Goes (λ _. n) s (m s) (h s) (λ a e. k)

  module _ (runtime : Runtime W E) where
    Follows-set_up :
        (c : Setup) (message about : String) → Follows (c ∷ []) (set_up runtime c message about)
    unfolding set_up
    Follows-set_up c message about s =
        let r = (runtime.perform c s.world).0 in
        (
          record { setup = c; succeeded = is_ok r } ∷ [],
          refl,
          rw (is_ok-or_exit message about (lifted r) ∙ is_ok-lifted r) (one_step c (is_ok r)),
        )

    Follows-created : (r : Registration) → Follows (register r ∷ []) (created runtime r)
    unfolding created
    Follows-created r = Follows-set_up (register r) "Failed to create controller" r.named

    Follows-run_both :
        (addr : String) (backend : ScoringBackend)
        → Follows (serve_and_start addr backend ∷ []) (run_both runtime addr backend)
    unfolding run_both
    Follows-run_both addr backend s =
        let first = (runtime.run addr backend s.world).0 in
        (
          record { setup = serve_and_start addr backend; succeeded = is_ok (ended first) } ∷ [],
          refl,
          rw (is_ok-or_exit (last_words first) "" (ended first)) (one_step _ (is_ok (ended first))),
        )

abbrev pub plan_of : ScoringBackend → List Setup
plan_of backend =
    register template_reconciler
    ∷ register (instance_reconciler backend)
    ∷ register set_reconciler
    ∷ register fence_reconciler
    ∷ register (lifecycle_reconciler backend)
    ∷ healthz_check "healthz"
    ∷ readyz_check "readyz"
    ∷ serve_and_start ":8080" backend
    ∷ []

module _ {W E : Type 0} (runtime : Runtime W E) where
  Follows-boot : (backend : ScoringBackend) → Follows (plan_of backend) (boot runtime backend)
  unfolding boot
  Follows-boot backend = Follows-then _ _ (Follows-created runtime template_reconciler) (
      Follows-then _ _ (Follows-created runtime (instance_reconciler backend)) (
        Follows-then _ _ (Follows-created runtime set_reconciler) (
          Follows-then _ _ (Follows-created runtime fence_reconciler) (
            Follows-then _ _ (Follows-created runtime (lifecycle_reconciler backend)) (
              Follows-then _ _ (Follows-set_up runtime (healthz_check "healthz") _ _) (
                Follows-then _ _ (Follows-set_up runtime (readyz_check "readyz") _ _)
                  (Follows-run_both runtime ":8080" backend)))))))

-- The start with a backend that could be made, or with one that could not: then the manager alone
-- is made, and the program fails.
abbrev pub Started :
    {E : Type 0} → Flags → Result (GoError E) ScoringBackend → List Asked → Bool → Type 0
Started flags (ok backend) trace b =
    Along (new_manager (manager_options flags) ∷ plan_of backend) trace b
Started flags (err e) trace b =
    (made : Bool) × Along (new_manager (manager_options flags) ∷ []) trace made × (b ≡ false)

module _ {W E : Type 0} where
  -- What follows an action and fails at once.
  fails_after :
      {A B : Type 0} {p : List Setup} (m : Boot W E A) (f : A → Boot W E B) (x : Exit E)
      (s : Process W)
      → Follows p m
      → ((a : A) (s' : Process W) → f a s' ≡ (err x, s'))
      → (asked : List Asked) × (((m >>= f) s).1.trace ≡ s.trace ++ asked)
        × ((made : Bool) × Along p asked made × (is_ok ((m >>= f) s).0 ≡ false))
  unfolding ◌>>=◌
  fails_after {A} {B} {p} m f x s h fails = after (m s) (h s)
    where
      after :
          (y : Result (Exit E) A × Process W)
          → Goes p s y
          → (asked : List Asked) × ((go_on y.0 f y.1).1.trace ≡ s.trace ++ asked)
            × ((made : Bool) × Along p asked made × (is_ok (go_on y.0 f y.1).0 ≡ false))
      after (ok a, s') (asked, e, k) = (asked, rw (fails a s') e, (true, k, rw (fails a s') refl))
      after (err z, s') (asked, e, k) = (asked, e, (false, k, refl))

module _ {W E : Type 0} (runtime : Runtime W E) where
  starts :
      (flags : Flags) (made : Result (GoError E) ScoringBackend)
      (message about message' about' : String) (w : W)
      → let manager = set_up runtime (new_manager (manager_options flags)) message about in
        let rest = (λ (s : Process W). (or_exit message' about' made, s)) >>= boot runtime in
        let after = (manager >> rest) (record { world = w; trace = [] }) in
        Started flags made after.1.trace (is_ok after.0)
  unfolding ◌>>◌ ◌>>=◌
  starts flags (ok backend) message about message' about' w =
      let made = new_manager (manager_options flags) in
      let (asked, e, k) =
        Follows-then (set_up runtime made message about) (boot runtime backend)
          (Follows-set_up runtime made message about) (Follows-boot runtime backend)
          (record { world = w; trace = [] }) in
      rw e k
  starts flags (err x) message about message' about' w =
      let made = new_manager (manager_options flags) in
      let (asked, e, (b, k, failed)) =
        fails_after (set_up runtime made message about)
          (λ _. (λ (s : Process W). (or_exit message' about' (err x), s)) >>= boot runtime)
          (record { message = message'; about = about'; cause = x })
          (record { world = w; trace = [] }) (Follows-set_up runtime made message about)
          (λ a s'. refl) in
      (b, rw e k, failed)

-- The backend that the environment asks for.
abbrev pub made_of :
    {E : Type 0}
    → (String → Result E String)
    → (String → Result E CtfdConfig)
    → (String → String)
    → Result (GoError E) ScoringBackend
made_of decode_generic decode_ctfd env =
    new decode_generic decode_ctfd (backend_name env) (env "KIMO_BACKEND_CONFIG")

module _ {W E : Type 0} (runtime : Runtime W E) (decode_generic : String → Result E String)
    (decode_ctfd : String → Result E CtfdConfig) where
  -- The start takes its steps in one order, and each only if those before it succeeded: the manager
  -- with the options of the flags, the controllers of templates, instances, sets, fences and
  -- lifecycles, the two checks, and then the API server beside the manager. The instance and the
  -- lifecycle controller and the API server have one backend, which the environment names. The
  -- program ends without an error exactly if no step failed. If the backend cannot be made,
  -- nothing follows the making of the manager, and the program fails.
  pub main-Started :
      (flags : Flags) (env : String → String) (w : W)
      → let after =
          main runtime decode_generic decode_ctfd flags env (record { world = w; trace = [] }) in
        Started flags (made_of decode_generic decode_ctfd env) after.1.trace (is_ok after.0)
  unfolding main choose_backend
  main-Started flags env w =
      starts runtime flags (made_of decode_generic decode_ctfd env) "Failed to start manager" ""
        "Failed to initialize scoring backend" (backend_name env) w
