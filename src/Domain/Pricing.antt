-- ===== src/Domain/Pricing.antt =====
-- packages/domain/pricing.py: fees, margins and the least price that earns a target margin.
-- A rate is a whole number of millionths: the column is Numeric(10,6), and the operator's input has
-- six decimals. All quotients are compared as fractions, by multiplying out. At such rates and at
-- amounts of at most 10^12 the 28 digits of `Decimal` give the same results as the exact fractions:
-- the products have at most 18 digits, and two quotients that differ do so by more than 10^-19.
mod Fee
mod Search
mod Bounds
mod Least
unfoldable pub use Fee.*
unfoldable pub use Search.*
pub use Bounds.*
pub use Least.*
