-- ===== src/Archives.antt =====
-- archives.py of the application and archives/zip_inspection.py of the adapters: what an archive
-- must satisfy before anything is extracted from it, and the extraction.
pub mod Policy
pub mod Names
pub mod Judge
pub mod Preflight
pub mod Extract
pub mod Contained
pub mod Admitted
pub mod Whole
pub mod Declared
pub mod Bounded
pub mod Ratios
mod Tests
