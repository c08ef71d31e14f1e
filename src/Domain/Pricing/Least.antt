-- ===== src/Domain/Pricing/Least.antt =====
-- `required_price` terminates, and finds the least price on the grid that earns the target.
use saup.Base.{
  ℕ, zero, suc, ◌+◌, ◌-◌, ◌*◌, ◌≤◌, ◌<◌, ◌≡◌, ◌≢◌, refl, true, false, arith, Option, none, some,
  max, ℤ, pos, ap, Bool-cases, inl, inr, sym, ◌∙◌, tests,
}
use native.Mathlib.Nat.{mul-le-mul_right, mul-le-mul}
use saup.Domain.Errors.{Result, ok, err, Error, Result-cases}
use saup.Domain.Pricing.Fee.{ceil_div, krw, rate, margin, Margin, below, million}
use saup.Domain.Pricing.Search.{
  raise_price, rounds, first_price, search_price, price_step, price_terms, required_price,
}
use saup.Domain.Pricing.Bounds.{krw-cases, Earns, margin-Earns, ceil_div-covers, ceil_div-least}

err_ne : (e : Error) (r : ℕ) → ◌≢◌ {A = Option (Result ℕ)} (some (err e)) (some (ok r))
err_ne e r h = cc

-- `d` is what a won of revenue leaves after the fee and the target, in millionths.
module _ (s f t c p d : ℕ) (split : f + t + d ≡ million) (left : 0 < d) where
  share : (q : ℕ) → q * f + q * t + q * d ≡ q * million
  share q = omega (arith, ap (λ (x : ℕ). q * x) split)

  -- A price that earns the target covers the costs from its share.
  meets_share :
      (q : ℕ) (m : Margin) → Earns q s f c p m → below m t ≡ false → (s + c + p) * million ≤ q * d
  meets_share q m e h = omega (tests, share q, ap (λ (x : ℕ). t * x) e.revenue_is, h)

  -- A price whose share covers the costs with a won to spare earns the target.
  below_share :
      (q : ℕ) (m : Margin)
      → Earns q s f c p m
      → below m t ≡ true
      → q * d < (s + c + p) * million + million
  below_share q m e h = omega (tests, share q, ap (λ (x : ℕ). t * x) e.revenue_is, h)

  abbrev terms : ℕ → Result Margin
  terms q = margin (pos q) (pos s) (pos f) (pos c) (pos p)

  -- What one round of the loop finds: an exception, a price that is high enough, or one too low.
  data Round (fuel q n : ℕ) : Type 0 where
    raised : (e : Error) → raise_price (suc fuel) q s f t c p n ≡ some (err e) → Round fuel q n
    enough :
        (m : Margin)
        → terms q ≡ ok m
        → below m t ≡ false
        → raise_price (suc fuel) q s f t c p n ≡ some (ok q)
        → Round fuel q n
    too_low :
        (m : Margin)
        → terms q ≡ ok m
        → below m t ≡ true
        → raise_price (suc fuel) q s f t c p n ≡ raise_price fuel (q + n) s f t c p n
        → Round fuel q n

  Round-terms : (fuel q n : ℕ) → Round fuel q n
  unfolding raise_price
  Round-terms fuel q n = elim (Result-cases (terms q)) [
    | inr (e, h) ↦ raised e (ground arith)
    | inl (m, h) ↦ elim (Bool-cases (below m t)) [
      | inl low ↦ too_low m h low (ground arith)
      | inr high ↦ enough m h high (ground arith)
    ]
  ]

  no_rounds : (q n : ℕ) (r : Result ℕ) → raise_price zero q s f t c p n ≢ some r
  unfolding raise_price
  no_rounds q n r h = cc

  -- With one round for each millionth that the share lacks, the fuel is enough.
  pub raise_price-ends :
      (fuel q n : ℕ)
      → 0 < n
      → 0 < fuel
      → (s + c + p) * million + million < q * d + fuel
      → raise_price fuel q s f t c p n ≢ none
  raise_price-ends zero q n hn z h = elim z [ ]
  raise_price-ends (suc fuel) q n hn z h = elim (Round-terms fuel q n) [
    | raised e r ↦ rw r (λ x. cc)
    | enough m e b r ↦ rw r (λ x. cc)
    | too_low m e b r ↦
        let short = below_share q m (margin-Earns q s f c p m e) b in
        let more : 1 ≤ n * d = omega (arith, mul-le-mul hn left) in
        rw r (raise_price-ends fuel (q + n) n hn (omega arith) (omega arith))
  ]

  pub raise_price-meets :
      (fuel q n r : ℕ)
      → raise_price fuel q s f t c p n ≡ some (ok r)
      → (m : Margin) × (terms r ≡ ok m) × (below m t ≡ false)
  raise_price-meets zero q n r h = absurd (no_rounds q n (ok r) h)
  raise_price-meets (suc fuel) q n r h = elim (Round-terms fuel q n) [
    | raised e x ↦ cc
    | enough m e b x ↦ let same : q ≡ r = cc in (m, rw (← same) e, b)
    | too_low m e b x ↦ raise_price-meets fuel (q + n) n r (sym x ∙ h)
  ]

  pub raise_price-grid :
      (fuel q n r : ℕ) → raise_price fuel q s f t c p n ≡ some (ok r) → (j : ℕ) × (r ≡ q + j * n)
  raise_price-grid zero q n r h = absurd (no_rounds q n (ok r) h)
  raise_price-grid (suc fuel) q n r h = elim (Round-terms fuel q n) [
    | raised e x ↦ absurd (err_ne e r (sym x ∙ h))
    | enough m e b x ↦ let same : q ≡ r = cc in (0, omega arith)
    | too_low m e b x ↦
        let (j, grid) = raise_price-grid fuel (q + n) n r (sym x ∙ h) in (suc j, omega arith)
  ]

  pub raise_price-least :
      (fuel q n r i : ℕ) (m : Margin)
      → raise_price fuel q s f t c p n ≡ some (ok r)
      → terms (q + i * n) ≡ ok m
      → below m t ≡ false
      → r ≤ q + i * n
  raise_price-least zero q n r i m h e b = absurd (no_rounds q n (ok r) h)
  raise_price-least (suc fuel) q n r i m h e b = elim (Round-terms fuel q n) [
    | raised x y ↦ cc
    | enough m' e' b' y ↦ let same : q ≡ r = cc in omega arith
    | too_low m' e' b' y ↦
        later (λ j z. raise_price-least fuel (q + n) n r j m (sym y ∙ h) z b) i m' e' b' e
          (sym y ∙ h)
  ]
    where
      later :
          ((j : ℕ) → terms (q + n + j * n) ≡ ok m → r ≤ q + n + j * n)
          → (i : ℕ) (m' : Margin) → terms q ≡ ok m'
          → below m' t ≡ true
          → terms (q + i * n) ≡ ok m
          → raise_price fuel (q + n) s f t c p n ≡ some (ok r)
          → r ≤ q + i * n
      later ih zero m' e' b' e y =
          let here : q + 0 * n ≡ q = omega arith in
          let same : m ≡ m' = cc (ap terms here) in
          let high : below m' t ≡ false = rw (← same) b in cc
      later ih (suc i) m' e' b' e y =
          let there : q + suc i * n ≡ q + n + i * n = omega arith in rw there (ih i (rw there at e))

-- The first price tried is a multiple of the step, and no price on the grid that covers the costs
-- from its share is less.
pub record Start (total d n q : ℕ) : Type 0 where
  pub factor : ℕ
  pub on_grid : q ≡ factor * n
  pub covers : total * million ≤ q * d
  pub first : (k : ℕ) → 0 < k → total * million ≤ k * n * d → factor ≤ k

max_mul : (k n : ℕ) → max n (k * n) ≡ max 1 k * n
max_mul zero n = omega arith
max_mul (suc k) n = let e : max 1 (suc k) ≡ suc k = omega arith in rw e (omega arith)

first_price-Start : (total d n : ℕ) → 0 < d → 0 < n → Start total d n (first_price total d n)
unfolding first_price
first_price-Start total d n hd hn = record {
  factor = max 1 k;
  on_grid = max_mul k n;
  covers = omega (
    arith,
    ceil_div-covers (total * million) (d * n) (omega (arith, mul-le-mul hd hn)),
    mul-le-mul_right {m = k * n} {n = max n (k * n)} d (omega arith),
  );
  first = λ j hj h. omega (
    arith,
    ceil_div-least (total * million) (d * n) j (omega (arith, mul-le-mul hd hn)) (omega arith),
  );
}
  where
    k : ℕ
    k = ceil_div (total * million) (d * n)

price_terms-inv :
    (a b c d e g : ℤ) {s f t x p n : ℕ}
    → price_terms a b c d e g ≡ ok (s, f, t, x, p, n)
    → (0 < n) × (f + t < million)
unfolding price_terms price_step
price_terms-inv a b c d e g h = ground arith

rounds-value : rounds ≡ 1000002
unfolding rounds
rounds-value = refl

abbrev start : ℕ → ℕ → ℕ → ℕ → ℕ → ℕ → ℕ
start s f t c p n = first_price (s + c + p) (million - f - t) n

-- A search at checked terms.
module _ (s f t c p n : ℕ) (hn : 0 < n) (room : f + t < million) where
  start-Start : Start (s + c + p) (million - f - t) n (start s f t c p n)
  start-Start = first_price-Start (s + c + p) (million - f - t) n (omega arith) hn

  search_price-ends : search_price s f t c p n ≢ none
  unfolding search_price
  search_price-ends = ground (
    arith,
    raise_price-ends s f t c p (million - f - t) (omega arith) (omega arith) rounds
        (start s f t c p n) n hn (omega (arith, rounds-value))
        (omega (arith, rounds-value, start-Start.covers)),
  )

  search_price-inv :
      (price : ℕ)
      → search_price s f t c p n ≡ some (ok price)
      → raise_price rounds (start s f t c p n) s f t c p n ≡ some (ok price)
  unfolding search_price krw
  search_price-inv price h = ground arith

pos_of_mul : (k n : ℕ) → 0 < k * n → 0 < k
pos_of_mul zero n h = omega arith
pos_of_mul (suc k) n h = omega arith

grid_split : (k j n q : ℕ) → j ≤ k → q ≡ j * n → k * n ≡ q + (k - j) * n
grid_split k j n q le e =
    let split : j + (k - j) ≡ k = omega arith in omega (arith, ap (λ (x : ℕ). x * n) split)

-- The search of a required price always ends: with a price or with an exception.
pub required_price-ends :
    (supplier_total fee_rate target_margin claim_cost promotion_cost step : ℤ)
    → required_price supplier_total fee_rate target_margin claim_cost promotion_cost step ≢ none
unfolding required_price
required_price-ends a b c d e g = elim (Result-cases (price_terms a b c d e g)) [
  | inr (x, h) ↦ rw (h, required_price) (λ w. cc)
  | inl ((s, f, t, x, p, n), h) ↦
      let (hn, room) = price_terms-inv a b c d e g h in
      rw (h, required_price) (search_price-ends s f t x p n hn room)
]

-- The terms of a search that found a price, all of them checked.
pub required_price-inv :
    (s f t c p n price : ℕ)
    → required_price (pos s) (pos f) (pos t) (pos c) (pos p) (pos n) ≡ some (ok price)
    → (0 < n) × (f + t < million) × (search_price s f t c p n ≡ some (ok price))
unfolding required_price price_terms price_step rate
required_price-inv s f t c p n price h = ground (arith, krw-cases s, krw-cases c, krw-cases p)

-- A price that is found is a multiple of the step, and earns the target margin at its own fee.
pub required_price_sound :
    (s f t c p n price : ℕ)
    → required_price (pos s) (pos f) (pos t) (pos c) (pos p) (pos n) ≡ some (ok price)
    → (k : ℕ) × (m : Margin) × (price ≡ k * n)
      × (margin (pos price) (pos s) (pos f) (pos c) (pos p) ≡ ok m)
      × (below m t ≡ false)
required_price_sound s f t c p n price h =
    let (hn, room, found) = required_price-inv s f t c p n price h in
    let loop = search_price-inv s f t c p n hn room price found in
    let first = start-Start s f t c p n hn room in
    let (j, grid) =
      raise_price-grid s f t c p (million - f - t) (omega arith) (omega arith) rounds
        (start s f t c p n) n price loop in
    let (m, e, b) =
      raise_price-meets s f t c p (million - f - t) (omega arith) (omega arith) rounds
        (start s f t c p n) n price loop in
    (first.factor + j, m, omega (arith, first.on_grid), e, b)

-- No smaller multiple of the step earns the target margin.
pub required_price_least :
    (s f t c p n price k : ℕ) (m : Margin)
    → required_price (pos s) (pos f) (pos t) (pos c) (pos p) (pos n) ≡ some (ok price)
    → margin (pos (k * n)) (pos s) (pos f) (pos c) (pos p) ≡ ok m
    → below m t ≡ false
    → price ≤ k * n
required_price_least s f t c p n price k m h e b =
    let (hn, room, found) = required_price-inv s f t c p n price h in
    let loop = search_price-inv s f t c p n hn room price found in
    let first = start-Start s f t c p n hn room in
    let earns = margin-Earns (k * n) s f c p m e in
    let share =
      meets_share s f t c p (million - f - t) (omega arith) (omega arith) (k * n) m earns b in
    let le = first.first k (pos_of_mul k n earns.positive) share in
    let there : k * n ≡ start s f t c p n + (k - first.factor) * n =
      grid_split k first.factor n _ le first.on_grid in
    rw there (
      raise_price-least s f t c p (million - f - t) (omega arith) (omega arith) rounds
        (start s f t c p n) n price (k - first.factor) m loop (rw there at e) b)
