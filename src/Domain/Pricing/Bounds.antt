-- ===== src/Domain/Pricing/Bounds.antt =====
-- What the fee and the margin satisfy.
use saup.Base.{
  ℕ, suc, ◌+◌, ◌-◌, ◌*◌, ◌≤◌, ◌<◌, ◌≡◌, refl, arith, ℤ, pos, negsuc, ◌-ℤ◌, int_laws, ◌⊎◌, pos_part,
  neg_part,
}
use native.Mathlib.Nat.{div-add-mod', mod-lt, mul-le-mul_right}
use native.Mathlib.Decide.{dec_le}
use saup.Domain.Errors.{ok, err, domain, invalid_krw}
use saup.Domain.Pricing.Fee.{ceil_div, krw, fee_for, margin, Margin, million}

pub ceil_div-covers : (a b : ℕ) → 0 < b → a ≤ ceil_div a b * b
unfolding ceil_div
ceil_div-covers a b h = omega (arith, div-add-mod' (a + (b - 1)) b, mod-lt (a + (b - 1)) {m = b} h)

-- Less than one multiple is added.
pub ceil_div-close : (a b : ℕ) → 0 < b → ceil_div a b * b < a + b
unfolding ceil_div
ceil_div-close a b h = omega (arith, div-add-mod' (a + (b - 1)) b)

pub ceil_div-least : (a b k : ℕ) → 0 < b → a ≤ k * b → ceil_div a b ≤ k
ceil_div-least a b k h c = elim (dec_le (ceil_div a b) k) [
  | yes p ↦ p
  | no n ↦
      let more : suc k ≤ ceil_div a b = omega arith in
      absurd (omega (arith, ceil_div-close a b h, mul-le-mul_right b more))
]

-- The fee is the revenue times the rate, rounded up to a whole won.
pub fee_for-ceils :
    (revenue : ℤ) (fee_rate : ℕ) (fee : ℕ)
    → fee_for revenue (pos fee_rate) ≡ ok fee
    → (pos_part revenue * fee_rate ≤ fee * million)
      × (fee * million < pos_part revenue * fee_rate + million)
unfolding fee_for
fee_for-ceils (pos r) f fee h =
    ground (arith, ceil_div-covers (r * f) million, ceil_div-close (r * f) million)
fee_for-ceils (negsuc r) f fee h = ground arith

-- What a margin that was computed says, with every sum on the side where it is positive.
pub record Earns (q s f c p : ℕ) (m : Margin) : Type 0 where
  pub positive : 0 < q
  pub revenue_is : m.revenue ≡ q
  pub balance : pos_part m.contribution + s + m.fee + c + p ≡ q + neg_part m.contribution
  pub fee_covers : q * f ≤ m.fee * million
  pub fee_close : m.fee * million < q * f + million

pub krw-cases : (n : ℕ) → (krw (pos n) ≡ ok n) ⊎ (krw (pos n) ≡ err (domain invalid_krw 422))
unfolding krw
krw-cases n = ground arith

contribution_parts :
    (q s f c p : ℕ)
    → let d = pos q -ℤ pos s -ℤ pos f -ℤ pos c -ℤ pos p in
      pos_part d + s + f + c + p ≡ q + neg_part d
contribution_parts q s f c p = omega int_laws

pub margin-Earns :
    (q s f c p : ℕ) (m : Margin)
    → margin (pos q) (pos s) (pos f) (pos c) (pos p) ≡ ok m
    → Earns q s f c p m
unfolding margin
margin-Earns q s f c p m h = ground (
  arith,
  krw-cases q,
  krw-cases s,
  krw-cases c,
  krw-cases p,
  fee_for-ceils (pos q) f m.fee,
  contribution_parts q s m.fee c p,
)

fee_test : fee_for (pos 10001) (pos 108000) ≡ ok 1081
unfolding fee_for
fee_test = refl
