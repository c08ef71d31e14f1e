-- ===== src/Application/AfterSales.antt =====
-- packages/application/after_sales.py: claims, refunds and the marketplace's settlement.
pub mod Claims
pub mod Refunds
pub mod Settlements
