-- ===== src/Application/Books/Gains.antt =====
-- What the journals other than payments bring to the seller's money.
use saup.Base.{ℕ, ◌≡◌, true, [], ◌∷◌, ℤ, pos, neg, ◌≤ℤ◌, int_laws, arith}
use saup.Store.Keys.{AccountCode, bank, deposit, supplier_recovery, account_eq}
use saup.Store.Rows.{Order}
use saup.Application.Finance.Ledger.{Entries}
use saup.Application.Finance.Ledger.Balance.{amount_of}
use saup.Application.Finance.Ledger.Post.{is_cash}
use saup.Application.Commerce.Shipping.{sale_entries}
use saup.Application.AfterSales.Refunds.{refund_entries}
use saup.Application.Operations.Funds.{opening_entries}
use saup.Application.Operations.Settlements.{reversal_entries}
use saup.Application.AfterSales.Settlements.{adjustment_entries, statement_entries, cash_entries}

-- The entries take nothing from the bank or a deposit.
abbrev pub Gains : Entries → Type 0
Gains entries = (c : AccountCode) → is_cash c ≡ true → pos 0 ≤ℤ amount_of c entries

pub sale-Gains : (o : Order) → Gains (sale_entries o)
unfolding account_eq
sale-Gains o bank cash = ground arith
sale-Gains o (deposit s) cash = ground arith
sale-Gains o c cash = cc

pub refund-Gains : (n : ℕ) → Gains (refund_entries n)
unfolding account_eq
refund-Gains n bank cash = ground arith
refund-Gains n (deposit s) cash = ground arith
refund-Gains n c cash = cc

pub adjustment-Gains : (z : ℤ) → Gains (adjustment_entries z)
unfolding account_eq
adjustment-Gains z bank cash = ground arith
adjustment-Gains z (deposit s) cash = ground arith
adjustment-Gains z c cash = cc

pub statement-Gains : (expected actual : ℕ) → Gains (statement_entries expected actual)
unfolding account_eq
statement-Gains expected actual bank cash = ground arith
statement-Gains expected actual (deposit s) cash = ground arith
statement-Gains expected actual c cash = cc

pub cash-Gains : (n : ℕ) → Gains (cash_entries n)
unfolding account_eq
cash-Gains n bank cash = grind (int_laws)
cash-Gains n (deposit s) cash = ground arith
cash-Gains n c cash = cc

pub opening-Gains : (n : ℕ) → Gains (opening_entries n)
unfolding account_eq
opening-Gains n bank cash = grind (int_laws)
opening-Gains n (deposit s) cash = ground arith
opening-Gains n c cash = cc

pub reversal-Gains : (expected actual : ℕ) → Gains (reversal_entries expected actual)
unfolding account_eq
reversal-Gains expected actual bank cash = ground arith
reversal-Gains expected actual (deposit s) cash = ground arith
reversal-Gains expected actual c cash = cc

pub recovery-Gains : (s n : ℕ) → Gains ((deposit s, pos n) ∷ (supplier_recovery, neg (pos n)) ∷ [])
unfolding account_eq
recovery-Gains s n bank cash = ground arith
recovery-Gains s n (deposit t) cash = grind (int_laws)
recovery-Gains s n c cash = cc
