-- ===== src/Platform/Filled.antt =====
-- The interface `Backend` of internal/integrations/backend.go, filled by generic.go and by ctfd.go.
use kimo.Prelude.{ℕ, String, some, none, List, [], ◌∷◌, Result, ok, err}
use kimo.Prelude.Int.{ℤ}
use kimo.Cluster.{GoError}
use kimo.Integrations.Event.{Event}
use kimo.Integrations.Backend.{Backend}
use kimo.Integrations.Http.{Wire, Client}
use kimo.Integrations.Generic
use kimo.Integrations.Generic.{GenericBackend}
use kimo.Integrations.Ctfd
use kimo.Integrations.Ctfd.{CtfdConfig, CtfdEventPayload}

-- The world of the generic backend: its own state, and the network.
pub record Hooked (V : Type 0) : Type 0 where
  pub backend : GenericBackend
  pub wire : Wire V

-- `errors.Join`, and an error of the repository as a Go error, are parameters.
module _ {E : Type 0} (join : List (GoError E) → E) where
  abbrev joined : List (GoError E) → Result E Unit
  joined [] = ok tt
  joined (e ∷ es) = err (join (e ∷ es))

  abbrev pub as_error : {A : Type 0} → Result (GoError E) A → Result E A
  as_error (ok a) = ok a
  as_error (err e) = err (join (e ∷ []))

  unfoldable pub generic_backend :
      {V : Type 0} (hmac : String → String → List ℕ) (client : Client V E)
      (encode : Event → Result E String)
      → Backend (Hooked V) E
  generic_backend hmac client encode = record {
    name = "generic";
    notify = λ event w.
        let (errs, wire') = Generic.notify hmac client encode w.backend event w.wire in
        (joined errs, record w { wire = wire' });
    authenticate = λ request w. (as_error (Generic.authenticate w.backend request), w);
    register_webhook = some (λ url secret w.
        (ok tt, record w { backend = Generic.register_webhook url secret w.backend }));
  }

  unfoldable pub ctfd_backend :
      {V : Type 0} (client : Client V E) (cfg : CtfdConfig)
      (encode : CtfdEventPayload → Result E String) (decode : String → Result E (String × ℤ))
      → Backend (Wire V) E
  ctfd_backend client cfg encode decode = record {
    name = "ctfd";
    notify = λ event wire.
        let (r, wire') = Ctfd.notify client cfg encode event wire in (as_error r, wire');
    authenticate = λ request wire.
        let (r, wire') = Ctfd.authenticate client cfg decode request wire in (as_error r, wire');
    register_webhook = none;
  }
