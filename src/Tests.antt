-- ===== src/Tests.antt =====
-- The theorems at concrete inputs, by part.
pub mod Links
pub mod Queues
pub mod Payloads
pub mod Tables
pub mod Gateways
pub mod Params
pub mod Loads
pub mod Runs
