-- ===== src/Application/Commerce.antt =====
-- packages/application/commerce.py: an order's validation, its payment, its cancellation and its
-- delivery. What a provider answers is an argument: the status of the order at the marketplace, and
-- the receipt or the exception of a call. A handler with two transactions commits the first before
-- the provider is called.
pub mod Intake
pub mod Payments
pub mod Cancel
pub mod Shipping
pub mod Submit
pub mod Sync
