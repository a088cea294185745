-- ===== src/Server.antt =====
-- The REST API: internal/api. A handler takes the state of the server and of the world, and
-- answers a response.
pub mod State
pub mod Names
pub mod Puzzles
pub mod Handlers
pub mod Create
pub mod Grants
pub mod Issued
pub mod Reads
pub mod Spending
pub mod Listing
pub mod Routes
pub mod Access
