-- ===== src/Manager.antt =====
-- The manager program: cmd/manager/main.go, and the `SetupWithManager` of each controller.
pub mod Flags
pub mod Options
pub mod Startup
pub mod Http2
pub mod Order
