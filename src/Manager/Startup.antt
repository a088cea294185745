-- ===== src/Manager/Startup.antt =====
-- The start of the manager: `main` of cmd/manager/main.go, and what each controller registers.
use kimo.Prelude.{
  String, ◌==◌, Option, none, some, List, [], ◌∷◌, ◌++◌, Result, ok, err, is_ok, Bool,
  if◌then◌else◌,
}
use kimo.Types.{NamespacedName, ObjectMeta}
use kimo.Cluster.{GoError, api_error}
use kimo.Integrations.Ctfd.{CtfdConfig}
use kimo.Integrations.Registry.{ScoringBackend, new}
use kimo.Instance.Build.{map_pod_to_instance}
use kimo.Manager.Flags.{Flags}
use kimo.Manager.Options.{ManagerOptions, manager_options}

-- The kinds of object that the controllers reconcile, own and watch.
pub data Kind : Type 0 where
  challenge_template challenge_instance challenge_set network_fence : Kind
  deployment service network_policy pod : Kind

-- What `SetupWithManager` tells the builder, and the backend in the reconciler's field.
pub record Registration : Type 0 where
  pub named : String
  pub for_kind : Kind
  pub owns : List Kind
  pub watches_pods : Option (ObjectMeta → List NamespacedName)
  pub backend : Option ScoringBackend

abbrev pub template_reconciler : Registration
template_reconciler = record {
  named = "challengetemplate";
  for_kind = challenge_template;
  owns = [];
  watches_pods = none;
  backend = none;
}

abbrev pub instance_reconciler : ScoringBackend → Registration
instance_reconciler backend = record {
  named = "challengeinstance";
  for_kind = challenge_instance;
  owns = deployment ∷ service ∷ [];
  watches_pods = some map_pod_to_instance;
  backend = some backend;
}

abbrev pub set_reconciler : Registration
set_reconciler = record {
  named = "challengeset";
  for_kind = challenge_set;
  owns = [];
  watches_pods = none;
  backend = none;
}

abbrev pub fence_reconciler : Registration
fence_reconciler = record {
  named = "networkfence";
  for_kind = network_fence;
  owns = network_policy ∷ [];
  watches_pods = none;
  backend = none;
}

abbrev pub lifecycle_reconciler : ScoringBackend → Registration
lifecycle_reconciler backend = record {
  named = "lifecycle";
  for_kind = challenge_instance;
  owns = [];
  watches_pods = none;
  backend = some backend;
}

-- What `main` asks of controller-runtime and of `net/http`. The last is the API server at an
-- address, in a goroutine, beside the manager.
pub data Setup : Type 0 where
  new_manager : ManagerOptions → Setup
  register : Registration → Setup
  healthz_check readyz_check : String → Setup
  serve_and_start : String → ScoringBackend → Setup

-- The API server and the manager run side by side, and the program ends with the first that does.
-- `ListenAndServe` never returns without an error.
pub data First (E : Type 0) : Type 0 where
  server_failed : E → First E
  manager_ended : Result E Unit → First E

-- controller-runtime and `net/http`, which are parameters.
pub record Runtime (W E : Type 0) : Type 0 where
  pub perform : Setup → W → Result E Unit × W
  pub run : String → ScoringBackend → W → First E × W

-- What is logged before `os.Exit(1)`.
pub record Exit (E : Type 0) : Type 0 where
  pub message : String
  pub about : String
  pub cause : GoError E

-- A step of the start, and whether it succeeded.
pub record Asked : Type 0 where
  pub setup : Setup
  pub succeeded : Bool

-- The world, and what was asked of it so far, the first one first, for the theorems.
pub record Process (W : Type 0) : Type 0 where
  pub world : W
  pub trace : List Asked

abbrev pub Boot : Type 0 → Type 0 → Type 0 → Type 0
Boot W E A = Process W → Result (Exit E) A × Process W

module _ {W E A B : Type 0} where
  abbrev pub go_on : Result (Exit E) A → (A → Boot W E B) → Boot W E B
  go_on (ok a) f s = f a s
  go_on (err e) f s = (err e, s)

  infixl 10 ◌>>=◌ ◌>>◌
  unfoldable pub ◌>>=◌ : Boot W E A → (A → Boot W E B) → Boot W E B
  m >>= f = λ s. let (r, s') = m s in go_on r f s'

  unfoldable pub ◌>>◌ : Boot W E A → Boot W E B → Boot W E B
  unfolding ◌>>=◌
  m >> n = m >>= λ _. n

module _ {E : Type 0} where
  abbrev pub or_exit : {A : Type 0} → String → String → Result (GoError E) A → Result (Exit E) A
  or_exit message about (ok a) = ok a
  or_exit message about (err e) = err (record { message = message; about = about; cause = e })

  abbrev pub lifted : Result E Unit → Result (GoError E) Unit
  lifted (ok u) = ok u
  lifted (err e) = err (api_error e)

  abbrev pub ended : First E → Result (GoError E) Unit
  ended (server_failed e) = err (api_error e)
  ended (manager_ended r) = lifted r

  abbrev pub last_words : First E → String
  last_words (server_failed e) = "API server failed"
  last_words (manager_ended r) = "Failed to run manager"

abbrev pub backend_name : (String → String) → String
backend_name env = if env "KIMO_BACKEND" == "" then "generic" else env "KIMO_BACKEND"

module _ {W E : Type 0} where
  module _ (runtime : Runtime W E) where
    -- `if err := …; err != nil { setupLog.Error(err, …); os.Exit(1) }`
    unfoldable pub set_up : Setup → String → String → Boot W E Unit
    set_up c message about s =
        let (r, w) = runtime.perform c s.world in
        let asked : Asked = record { setup = c; succeeded = is_ok r } in
        (or_exit message about (lifted r), record { world = w; trace = s.trace ++ (asked ∷ []) })

    unfoldable pub run_both : String → ScoringBackend → Boot W E Unit
    run_both addr backend s =
        let (first, w) = runtime.run addr backend s.world in
        let asked : Asked = record {
          setup = serve_and_start addr backend;
          succeeded = is_ok (ended first);
        } in
        (
          or_exit (last_words first) "" (ended first),
          record { world = w; trace = s.trace ++ (asked ∷ []) },
        )

    unfoldable pub created : Registration → Boot W E Unit
    unfolding set_up
    created r = set_up (register r) "Failed to create controller" r.named

    -- With the backend in hand.
    unfoldable pub boot : ScoringBackend → Boot W E Unit
    boot backend = do
      created template_reconciler
      created (instance_reconciler backend)
      created set_reconciler
      created fence_reconciler
      created (lifecycle_reconciler backend)
      set_up (healthz_check "healthz") "Failed to set up health check" ""
      set_up (readyz_check "readyz") "Failed to set up ready check" ""
      run_both ":8080" backend

    module _ (decode_generic : String → Result E String)
        (decode_ctfd : String → Result E CtfdConfig) where
      unfoldable pub choose_backend : (String → String) → Boot W E ScoringBackend
      choose_backend env s = (
        or_exit "Failed to initialize scoring backend" (backend_name env)
            (new decode_generic decode_ctfd (backend_name env) (env "KIMO_BACKEND_CONFIG")),
        s,
      )

      unfoldable pub main : Flags → (String → String) → Boot W E Unit
      unfolding manager_options
      main flags env = do
        set_up (new_manager (manager_options flags)) "Failed to start manager" ""
        backend ← choose_backend env
        boot backend
