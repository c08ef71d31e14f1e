-- ===== src/Domain/Pricing/Fee.antt =====
-- `krw`, `rate`, `fee_for` and `margin` of packages/domain/pricing.py.
use saup.Base.{
  ℕ, ◌+◌, ◌-◌, ◌*◌, ◌/◌, Bool, ℤ, pos, negsuc, ◌-ℤ◌, pos_part, neg_part, ltb, leb, ◌==◌,
  if◌then◌else◌,
}
use saup.Domain.Errors.{
  Result, ok, err, domain, invalid_krw, invalid_rate, zero_revenue, ◌>>=◌, ◌>>◌, raise_if,
}

abbrev pub max_krw : ℕ
max_krw = 1000000000000

-- One, in millionths.
abbrev pub million : ℕ
million = 1000000

-- Ceiling division, `ROUND_CEILING` of a quotient of numbers that are not negative.
unfoldable pub ceil_div : ℕ → ℕ → ℕ
ceil_div a b = (a + (b - 1)) / b

unfoldable pub krw : ℤ → Result ℕ
krw (pos n) = if leb n max_krw then ok n else err (domain invalid_krw 422)
krw (negsuc n) = err (domain invalid_krw 422)

unfoldable pub rate : ℤ → Result ℕ
rate (pos r) = if ltb r million then ok r else err (domain invalid_rate 422)
rate (negsuc r) = err (domain invalid_rate 422)

-- The least whole fee that is not below revenue * fee_rate.
unfoldable pub fee_for : ℤ → ℤ → Result ℕ
unfolding krw rate ceil_div
fee_for revenue fee_rate = do r ← krw revenue; f ← rate fee_rate; ok (ceil_div (r * f) million)

pub record Margin : Type 0 where
  pub revenue : ℕ
  pub supplier_total : ℕ
  pub fee : ℕ
  pub expected_claim : ℕ
  pub promotion : ℕ
  pub contribution : ℤ

-- `percentage` is contribution / revenue; `m.percentage < target`, multiplied out.
abbrev pub below : Margin → ℕ → Bool
below m target =
    ltb (pos_part m.contribution * million) (target * m.revenue + neg_part m.contribution * million)

unfoldable pub margin : ℤ → ℤ → ℤ → ℤ → ℤ → Result Margin
margin revenue supplier_total fee_rate claim_cost promotion_cost = do
  r ← krw revenue
  s ← krw supplier_total
  c ← krw claim_cost
  p ← krw promotion_cost
  raise_if (r == 0) (domain zero_revenue 422)
  fee ← fee_for revenue fee_rate
  ok (record {
    revenue = r;
    supplier_total = s;
    fee = fee;
    expected_claim = c;
    promotion = p;
    contribution = pos r -ℤ pos s -ℤ pos fee -ℤ pos c -ℤ pos p;
  })
