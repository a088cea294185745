-- ===== src/Types.antt =====
-- The custom resources (api/v1alpha1) and the Kubernetes objects that the controllers build.
mod Meta
mod Kube
mod Instance
mod Template
mod Fence
mod Schedule
pub use Meta.*
pub use Kube.*
unfoldable pub use Instance.*
pub use Template.*
pub use Fence.*
pub use Schedule.*
