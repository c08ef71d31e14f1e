-- ===== src/Domain/Pricing/Search.antt =====
-- `required_price` of packages/domain/pricing.py, with the loop that repeats the fee's rounding.
use saup.Base.{
  ℕ, zero, suc, ◌+◌, ◌-◌, ◌*◌, Option, none, some, max, ℤ, pos, negsuc, leb, ◌==◌, if◌then◌else◌,
}
use saup.Domain.Errors.{
  Result, ok, err, domain, invalid_price_step, impossible_margin, ◌>>=◌, ◌>>◌, raise_if,
}
use saup.Domain.Pricing.Fee.{krw, rate, million, ceil_div, below, margin}

-- `while margin(price, ...).percentage < target_margin: price += step`. The outer `none` says that
-- the fuel ran out; an exception of `margin` ends the loop.
unfoldable pub raise_price : ℕ → ℕ → ℕ → ℕ → ℕ → ℕ → ℕ → ℕ → Option (Result ℕ)
raise_price zero price supplier_total fee_rate target claim promotion step = none
raise_price (suc fuel) price supplier_total fee_rate target claim promotion step =
    let rest =
      raise_price fuel (price + step) supplier_total fee_rate target claim promotion step in
    elim (margin (pos price) (pos supplier_total) (pos fee_rate) (pos claim) (pos promotion)) [
      | err e ↦ some (err e)
      | ok m ↦ if below m target then rest else some (ok price)
    ]

-- Rounds enough for every rate and step: after a million of them the fee's rounding is made up.
unfoldable pub rounds : ℕ
rounds = million + 2

-- max(step, ceil(total / denominator / step) * step), the denominator in millionths.
unfoldable pub first_price : ℕ → ℕ → ℕ → ℕ
first_price total denominator step =
    max step (ceil_div (total * million) (denominator * step) * step)

-- The loop and the final `krw`.
unfoldable pub search_price : ℕ → ℕ → ℕ → ℕ → ℕ → ℕ → Option (Result ℕ)
search_price supplier_total fee_rate target claim promotion step =
    elim (raise_price rounds
      (first_price (supplier_total + claim + promotion) (million - fee_rate - target) step)
      supplier_total fee_rate target claim promotion step) [
        | none ↦ none
        | some (err e) ↦ some (err e)
        | some (ok price) ↦ some (krw (pos price))
      ]

-- `step` is a positive whole number.
unfoldable pub price_step : ℤ → Result ℕ
price_step (negsuc k) = err (domain invalid_price_step 422)
price_step (pos n) = if n == 0 then err (domain invalid_price_step 422) else ok n

-- The checks of the arguments, in the order of the code.
unfoldable pub price_terms : ℤ → ℤ → ℤ → ℤ → ℤ → ℤ → Result (ℕ × ℕ × ℕ × ℕ × ℕ × ℕ)
price_terms supplier_total fee_rate target_margin claim_cost promotion_cost step = do
  s ← krw supplier_total
  c ← krw claim_cost
  p ← krw promotion_cost
  n ← price_step step
  f ← rate fee_rate
  t ← rate target_margin
  raise_if (leb million (f + t)) (domain impossible_margin 422)
  ok (s, f, t, c, p, n)

unfoldable pub required_price : ℤ → ℤ → ℤ → ℤ → ℤ → ℤ → Option (Result ℕ)
required_price supplier_total fee_rate target_margin claim_cost promotion_cost step =
    elim (price_terms supplier_total fee_rate target_margin claim_cost promotion_cost step) [
      | err e ↦ some (err e)
      | ok (s, f, t, c, p, n) ↦ search_price s f t c p n
    ]
