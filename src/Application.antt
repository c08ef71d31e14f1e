-- ===== src/Application.antt =====
-- The services of packages/application, which change the database in transactions.
pub mod Common
pub mod Finance
pub mod OrderRules
pub mod PaymentEvidence
pub mod Catalog
pub mod Operations
pub mod Risk
pub mod SupplierOperations
pub mod Commerce
pub mod AfterSales
pub mod Frame
pub mod Books
