-- ===== src/Application/Books.antt =====
-- The ledger's invariants are kept by all effects.
pub mod Gains
