-- ===== src/Instance.antt =====
-- The instance controller: internal/controller/challengeinstance_controller.go.
pub mod Build
pub mod Phase
pub mod Ensure
pub mod Reconcile
pub mod Quiet
pub mod Transition
pub mod Alike
pub mod Steps
pub mod Report
pub mod Stability
pub mod Ownership
pub mod Wiring
pub mod Health
pub mod Lifetime
