-- ===== src/Application/Finance/Settle.antt =====
-- What `settle_payment` of packages/application/finance.py does to the ledger.
use saup.Base.{ℕ, ◌≡◌, false, ◌||◌, ltb_ℤ, pos, int_laws}
use saup.Store.Db.{Db, Env}
use saup.Store.Keys.{bank, deposit, account_eq}
use saup.Store.Rows.{Payment, Receipt, Reservation}
use saup.Store.Monad.Keeps.{Keeps, Outcome, Outcome-after, Outcome-gets, Outcome-bind}
use saup.Application.Frame.{frame_rules}
use saup.Application.Finance.Ledger.{balance}
use saup.Application.Finance.Ledger.Balance.{balance-eq}
use saup.Application.Finance.Ledger.Post.{
  IsBalanced, IsSolvent, Funds, post-IsBalanced, post_funded,
}
use saup.Application.Finance.Ledger.Once.{HasDistinctKeys, post-HasDistinctKeys}
use saup.Application.Finance.Treasury.{payment_entries, record_payment, pay_out, settle_payment}

pub settle_payment-IsBalanced :
    (env : Env) (p : Payment) (receipt : Receipt) → Keeps IsBalanced (settle_payment env p receipt)
unfolding settle_payment pay_out record_payment
settle_payment-IsBalanced env p receipt = search (frame_rules, post-IsBalanced) depth 24

pub settle_payment-HasDistinctKeys :
    (env : Env) (p : Payment) (receipt : Receipt)
    → Keeps HasDistinctKeys (settle_payment env p receipt)
unfolding settle_payment pay_out record_payment
settle_payment-HasDistinctKeys env p receipt = search (frame_rules, post-HasDistinctKeys) depth 24

-- The guard's two comparisons say that the entries leave nothing below 0.
guarded :
    (amount : ℕ) (r : Reservation) (db : Db)
    → IsSolvent db
    → (ltb_ℤ (balance bank db) (pos r.bank_amount)
        || ltb_ℤ (balance (deposit r.supplier_id) db) (pos r.deposit_amount))
      ≡ false
    → Funds (payment_entries amount r) db
unfolding account_eq
guarded amount r db h checked bank cash =
    grind (int_laws, h.ledger.funded bank cash, balance-eq bank db)
guarded amount r db h checked (deposit s) cash =
    grind (int_laws, h.ledger.funded (deposit s) cash, balance-eq (deposit r.supplier_id) db)
guarded amount r db h checked c cash = cc

record_payment_funded :
    (env : Env) (p : Payment) (receipt : Receipt) (i : ℕ) (r : Reservation) (db : Db)
    → IsSolvent db
    → Funds (payment_entries p.amount r) db
    → Outcome IsSolvent (record_payment env p receipt i r db)
unfolding record_payment
record_payment_funded env p receipt i r db h funds =
    Outcome-bind IsSolvent _ _ db (post_funded env _ _ (payment_entries p.amount r) _ db h funds)
      (search frame_rules depth 12)

pay_out-IsSolvent :
    (env : Env) (p : Payment) (receipt : Receipt) (i : ℕ) (r : Reservation)
    → Keeps IsSolvent (pay_out env p receipt i r)
unfolding pay_out
pay_out-IsSolvent env p receipt i r = record {
  at = λ db h. Outcome-after IsSolvent _ _ _ db λ is_held. Outcome-after IsSolvent _ _ _ db λ fits.
      Outcome-gets IsSolvent _ _ db (
        Outcome-gets IsSolvent _ _ db (
          Outcome-after IsSolvent _ _ _ db λ covered.
            record_payment_funded env p receipt i r db h (guarded p.amount r db h covered)));
}

pub settle_payment-IsSolvent :
    (env : Env) (p : Payment) (receipt : Receipt) → Keeps IsSolvent (settle_payment env p receipt)
unfolding settle_payment
settle_payment-IsSolvent env p receipt = search (frame_rules, pay_out-IsSolvent) depth 24
