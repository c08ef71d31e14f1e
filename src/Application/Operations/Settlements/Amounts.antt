-- ===== src/Application/Operations/Settlements/Amounts.antt =====
-- What the statement and the adjustment of a settlement bring to an account, and their reversals.
use saup.Base.{
  ℕ, ◌≡◌, refl, ap, false, not, ◌||◌, ◌==◌, ℤ, pos, negsuc, neg, ◌+ℤ◌, int_laws, pos_part, neg_part,
  +ℤ_parts, eq_of_parts, arith,
}
use saup.Store.Keys.{
  AccountCode, marketplace_receivable, settlement_clearing, settlement_variance, account_eq,
}
use saup.Application.Finance.Ledger.{is_zero}
use saup.Application.Finance.Ledger.Balance.{amount_of}
use saup.Application.AfterSales.Settlements.{adjustment_entries, statement_entries}
use saup.Application.Operations.Settlements.{reversal_entries}

pub no_statement :
    (c : AccountCode) (expected actual : ℕ)
    → (not (actual == 0) || not (expected == 0)) ≡ false
    → amount_of c (statement_entries expected actual) ≡ pos 0
unfolding account_eq
no_statement marketplace_receivable expected actual h = grind (int_laws, h)
no_statement settlement_clearing expected actual h = grind (int_laws, h)
no_statement settlement_variance expected actual h = grind (int_laws, h)
no_statement c expected actual h = refl

pub no_reversal :
    (c : AccountCode) (expected actual : ℕ)
    → (not (actual == 0) || not (expected == 0)) ≡ false
    → amount_of c (reversal_entries expected actual) ≡ pos 0
unfolding account_eq
no_reversal marketplace_receivable expected actual h = grind (int_laws, h)
no_reversal settlement_clearing expected actual h = grind (int_laws, h)
no_reversal settlement_variance expected actual h = grind (int_laws, h)
no_reversal c expected actual h = refl

pub no_adjustment :
    (c : AccountCode) (z : ℤ)
    → not (is_zero z) ≡ false
    → (amount_of c (adjustment_entries z) ≡ pos 0)
      × (amount_of c (adjustment_entries (neg z)) ≡ pos 0)
unfolding account_eq neg
no_adjustment marketplace_receivable (pos n) h = (grind (int_laws, h), grind (int_laws, h))
no_adjustment settlement_variance (pos n) h = (grind (int_laws, h), grind (int_laws, h))
no_adjustment marketplace_receivable (negsuc n) h = ground (arith, h)
no_adjustment settlement_variance (negsuc n) h = ground (arith, h)
no_adjustment c z h = (refl, refl)

-- A reversal is the negative of what it reverses.
pub statement_cancels :
    (c : AccountCode) (expected actual : ℕ)
    → amount_of c (reversal_entries expected actual)
        +ℤ amount_of c (statement_entries expected actual)
      ≡ pos 0
unfolding account_eq ◌+ℤ◌
statement_cancels marketplace_receivable expected actual = grind (int_laws)
statement_cancels settlement_clearing expected actual = grind (int_laws)
statement_cancels settlement_variance expected actual = grind (int_laws)
statement_cancels c expected actual = refl

pub adjustment_cancels :
    (c : AccountCode) (z : ℤ)
    → amount_of c (adjustment_entries (neg z)) +ℤ amount_of c (adjustment_entries z) ≡ pos 0
unfolding account_eq ◌+ℤ◌
adjustment_cancels marketplace_receivable z = grind (int_laws)
adjustment_cancels settlement_variance z = grind (int_laws)
adjustment_cancels c z = refl

-- What the settlement's statement and adjustment bring to an account.
abbrev pub settled_by : AccountCode → ℕ → ℕ → ℤ → ℤ
settled_by c expected actual adjustment =
    amount_of c (statement_entries expected actual) +ℤ amount_of c (adjustment_entries adjustment)

-- Four journals one after another, the first two of which are undone by what the settlement held.
pub net :
    (z0 z1 z2 z3 z4 rs ra na ns st ad : ℤ)
    → z1 ≡ rs +ℤ z0
    → z2 ≡ ra +ℤ z1
    → z3 ≡ na +ℤ z2
    → z4 ≡ ns +ℤ z3
    → rs +ℤ st ≡ pos 0
    → ra +ℤ ad ≡ pos 0
    → z4 +ℤ (st +ℤ ad) ≡ z0 +ℤ (ns +ℤ na)
net z0 z1 z2 z3 z4 rs ra na ns st ad h1 h2 h3 h4 hs ha = eq_of_parts _ _ (
    grind (
      arith,
      h1,
      h2,
      h3,
      h4,
      ap pos_part hs,
      ap neg_part hs,
      ap pos_part ha,
      ap neg_part ha,
      +ℤ_parts rs z0,
      +ℤ_parts ra z1,
      +ℤ_parts na z2,
      +ℤ_parts ns z3,
      +ℤ_parts rs st,
      +ℤ_parts ra ad,
      +ℤ_parts st ad,
      +ℤ_parts z4 (st +ℤ ad),
      +ℤ_parts ns na,
      +ℤ_parts z0 (ns +ℤ na),
    ))
