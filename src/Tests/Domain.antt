-- ===== src/Tests/Domain.antt =====
-- Prices, decisions and states.
use saup.Base.{
  ℕ, ◌*◌, ◌≤◌, ◌≡◌, ◌≢◌, ◌↔◌, ◌⊎◌, refl, true, false, arith, none, some, pos, ◌+ℤ◌, ◌-ℤ◌,
}
use saup.Domain.Errors.{ok}
use saup.Domain.Pricing.{
  Margin, margin, below, required_price, price_terms, price_step, search_price, first_price,
  raise_price, rounds, krw, rate, fee_for, ceil_div, required_price-ends, required_price_sound,
  required_price_least,
}
use saup.Domain.OrderState.{received, validating, closed, validate_transition, is_allowed}
use saup.Domain.OrderState.Graph.{
  new, change, before_payment, before_delivery, ◌⟶◌, validate_transition_iff, unpaid_order,
  undelivered_order, final_order,
}
use saup.Domain.Discovery.{Signals, Score, Decision, decide, evaluate, test}
use saup.Domain.Discovery.Monotone.{boldness, ceiling, decide_monotone, evaluate-bounds}

-- Supplier 7000 won, fee 10%, target margin 20%, claims 100 won, steps of 100 won.
price_lem :
    required_price (pos 7000) (pos 100000) (pos 200000) (pos 100) (pos 0) (pos 100)
    ≡ some (ok 10200)
unfolding required_price price_terms price_step search_price first_price raise_price rounds margin
    krw rate fee_for ceil_div ◌+ℤ◌ ◌-ℤ◌
price_lem = refl

required_price-ends_example :
    required_price (pos 7000) (pos 100000) (pos 200000) (pos 100) (pos 0) (pos 100) ≢ none
required_price-ends_example =
    required_price-ends (pos 7000) (pos 100000) (pos 200000) (pos 100) (pos 0) (pos 100)

required_price_sound_example :
    (k : ℕ) × (m : Margin) × (10200 ≡ k * 100)
    × (margin (pos 10200) (pos 7000) (pos 100000) (pos 100) (pos 0) ≡ ok m)
    × (below m 200000 ≡ false)
required_price_sound_example = required_price_sound 7000 100000 200000 100 0 100 10200 price_lem

abbrev dearer : Margin
dearer = record {
  revenue = 10300;
  supplier_total = 7000;
  fee = 1030;
  expected_claim = 100;
  promotion = 0;
  contribution = pos 2170;
}

dearer_lem : margin (pos (103 * 100)) (pos 7000) (pos 100000) (pos 100) (pos 0) ≡ ok dearer
unfolding margin krw rate fee_for ceil_div ◌+ℤ◌ ◌-ℤ◌
dearer_lem = refl

required_price_least_example : 10200 ≤ 103 * 100
required_price_least_example =
    required_price_least 7000 100000 200000 100 0 100 10200 103 dearer price_lem dearer_lem refl

abbrev strong : Signals
strong = record { first = pos 80; second = pos 70; third = pos 60; fourth = pos 50 }

abbrev weak : Signals
weak = record { first = pos 20; second = pos 30; third = pos 20; fourth = pos 10 }

abbrev entered : Decision
entered = record {
  demand = record { total = 550; weight = 8 };
  competition = record { total = 170; weight = 8 };
  action = test;
}

entered_lem : evaluate strong weak (pos 200000) true (pos 40) (pos 100000) ≡ ok entered
unfolding evaluate
entered_lem = refl

evaluate-bounds_example : (550 ≤ 100 * 8) × (170 ≤ 100 * 8)
evaluate-bounds_example =
    evaluate-bounds strong weak (pos 200000) true (pos 40) (pos 100000) entered entered_lem

abbrev scored : ℕ → Score
scored n = record { total = n; weight = 8 }

decide_monotone_example :
    (boldness (decide (scored 550) (scored 170) (pos 200000) true (pos 20) (pos 100000))
      ≤ boldness (decide (scored 560) (scored 160) (pos 200000) true (pos 50) (pos 100000)))
    × (boldness (decide (scored 550) (scored 170) (pos 200000) true (pos 20) (pos 100000))
        ≤ ceiling (scored 550) (scored 170) (pos 20))
decide_monotone_example =
    decide_monotone 550 170 560 160 8 8 (pos 200000) (pos 20) (pos 50) (pos 100000) true
      (ground arith) (ground arith) (ground arith) (ground arith)

validate_transition_iff_example :
    (validate_transition received validating ≡ ok tt)
    ↔ ((received ≡ validating) ⊎ (received ⟶ validating))
validate_transition_iff_example = validate_transition_iff received validating

accepted : validate_transition received validating ≡ ok tt
unfolding validate_transition is_allowed
accepted = refl

unpaid_order_example : before_payment validating ≡ true
unpaid_order_example = unpaid_order (change new accepted (λ e. cc))

undelivered_order_example : before_delivery validating ≡ true
undelivered_order_example = undelivered_order (change new accepted (λ e. cc))

closed_lem : validate_transition closed closed ≡ ok tt
unfolding validate_transition is_allowed
closed_lem = refl

final_order_example : closed ≡ closed
final_order_example = final_order closed closed refl closed_lem
