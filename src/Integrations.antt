-- ===== src/Integrations.antt =====
-- Scoring backends: internal/integrations.
pub mod Event
pub mod Backend
pub mod Http
pub mod Generic
pub mod Ctfd
pub mod Registry
pub mod Fanout
pub mod AnyOrder
pub mod Tokens
