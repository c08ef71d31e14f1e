-- ===== src/Application/Finance.antt =====
-- packages/application/finance.py: the double-entry ledger, the treasury's position, and the
-- reservation and settlement of a supplier payment.
pub mod Ledger
pub mod Treasury
pub mod Settle
pub mod Reserve
