-- ===== src/Domain.antt =====
-- The rules of packages/domain that touch no database: prices, discovery and the two state graphs.
pub mod Address
pub mod Errors
pub mod Pricing
pub mod Discovery
pub mod OrderState
pub mod SupplierState
pub mod SupplierCommands
pub mod OperatorCommands
