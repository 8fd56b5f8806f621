-- ===== src/Release.antt =====
-- libs/property-tax-adapters/src/property_tax_adapters/release
pub mod Outcome
pub mod Records
pub mod Progress
pub mod Run
pub mod Steps
pub mod Processor
pub mod Triple
pub mod Books
pub mod Atomic
pub mod Lifecycle
pub mod Carriers
mod Tests
