-- ===== src/Control.antt =====
-- tools/countyforge-github: the canonical state of a run on an issue or a pull request, its legal
-- transitions, and the lease that one workflow holds on it.
pub mod State
pub mod Leases
pub mod Operations
pub mod Changes
pub mod Lifecycle
pub mod Exclusive
mod Tests
