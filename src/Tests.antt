-- ===== src/Tests.antt =====
-- A small shop, and the theorems at work in it.
pub mod Shop
mod Domain
mod Files
mod Funds
mod Ledger
mod Life
mod Lines
mod Orders
mod Receipts
mod Suppliers
mod Worker
