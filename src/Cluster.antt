-- ===== src/Cluster.antt =====
-- The Kubernetes client as the controllers see it, and the effects that they run in.
mod Requests
mod Client
mod Exec
pub mod Log
pub mod Returns
pub mod Follows
pub use Requests.*
pub use Client.*
unfoldable pub use Exec.*
