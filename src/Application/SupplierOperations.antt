-- ===== src/Application/SupplierOperations.antt =====
-- The parts of packages/application/supplier_operations.py on which an order's payment and its
-- cancellation rest: frozen terms, the supplier's acknowledgement, and the request to cancel.
pub mod Terms
pub mod Request
pub mod Cancel
pub mod Batches
pub mod Sending
pub mod Acknowledge
pub mod Evidence
pub mod Legacy
