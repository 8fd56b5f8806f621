-- ===== src/Canonical.antt =====
-- canonical.py of the application: the batches of a canonical load.
pub mod Records
pub mod Batch
pub mod Handles
pub mod Bound
pub mod Accepted
mod Tests
