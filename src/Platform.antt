-- ===== src/Platform.antt =====
-- The backends of the repository behind the `Backend` interface, with the API server and the
-- controllers that call them.
pub mod Filled
pub mod Hooks
pub mod Callers
