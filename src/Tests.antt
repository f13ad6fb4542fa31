-- ===== src/Tests.antt =====
-- Concrete buses, parties and services, on which the theorems are applied.
pub mod BusRuns
pub mod Parties
pub mod Calls
pub mod Requests
pub mod Delays
pub mod Tokens
pub mod Patches
pub mod Notices
pub mod Renewals
pub mod Sessions
