-- ===== src/Integrations/Backend.antt =====
-- The `Backend` interface of internal/integrations/backend.go, and how a controller notifies.
use kimo.Prelude.{String, Option, none, some, List, Result}
use kimo.Cluster.{notify, M, pure, attempt, call}
use kimo.Integrations.Event.{Event}

pub record Principal : Type 0 where
  pub subject : String
  pub team : String
  pub scopes : List String

-- The headers of a request, which is all that a backend reads of it.
pub record HttpRequest : Type 0 where
  pub authorization : String

-- `register_webhook` is there if the backend implements `WebhookRegistrar`.
pub record Backend (W E : Type 0) : Type 0 where
  pub name : String
  pub notify : Event → W → Result E Unit × W
  pub authenticate : HttpRequest → W → Result E Principal × W
  pub register_webhook : Option (String → String → W → Result E Unit × W)

module _ {W E : Type 0} where
  -- `if r.Backend != nil { _ = r.Backend.Notify(ctx, event) }`: the error is dropped.
  unfoldable pub announce : Option (Backend W E) → Event → M W E Unit
  announce none event = pure tt
  announce (some b) event = attempt (call (notify event) (b.notify event)) pure (λ _. pure tt)
