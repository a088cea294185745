-- ===== src/Tests.antt =====
-- The theorems at concrete inputs, on a small cluster that is given in full.
mod Visits
mod DeepCopies
mod World
mod Rules
mod Controllers
mod Requests
mod Platforms
mod Objects
mod Startup
mod Overlaps
mod Served
mod Lifetimes
