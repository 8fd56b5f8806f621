-- ===== src/Sources.antt =====
-- libs/property-tax-adapters/src/property_tax_adapters/sources
pub mod Contracts
pub mod Pacs
pub mod Written
mod Tests
