-- ===== src/Application/AfterSales/Settlements.antt =====
-- `reconcile_settlement` and `confirm_settlement_cash` of packages/application/after_sales.py.
use saup.Base.{
  ℕ, Bool, true, false, not, ◌&&◌, ◌||◌, ◌==◌, ltb, Option, some, [], ◌∷◌, find?, any, sum_where,
  if◌then◌else◌, ℤ, pos, neg, ◌+ℤ◌, ◌-ℤ◌, abs, ltb_ℤ, pos_part,
}
use saup.Domain.OrderState.{OrderState, same}
use saup.Domain.Errors.{
  conflict, unexpected, invalid_adjustment, invalid_tolerance, settlement_conflict,
  settlement_requires_delivery, pending_refund_reconciliation,
  negative_settlement_requires_manual_reconciliation, confirmed_receipt_required,
}
use saup.Domain.Pricing.{krw}
use saup.Store.Db.{Db, Env}
use saup.Store.Keys.{
  bank, marketplace_receivable, settlement_clearing, settlement_variance, adjustment_key,
  settlement_key, bank_settlement_key, marketplace_adjustment, settlement_statement,
  bank_settlement, settlement_anomaly, settlement_document,
}
use saup.Store.Rows.{Who, system, Order, settlement_reconciled, settlement_cash_confirmed}
use saup.Store.CaseRows.{Claim, ClaimStatus, fully_refunded, Refund, Settlement, InterventionKey}
use saup.Store.Monad.{M, pure, gets, lift, modify, fresh, on_some, when, raise_when, ◌>>=◌, ◌>>◌}
use saup.Store.Tables.{fetch, find_order, find_settlement, update_settlement}
use saup.Application.Common.{audit, review, lock_treasury}
use saup.Application.Finance.Ledger.{Entries, is_zero, post}
use saup.Application.OrderRules.{transition}
use saup.Application.SupplierOperations.Terms.{intervention}
use saup.Application.AfterSales.Refunds.{is_done}

abbrev pub refunded : ℕ → Db → ℕ
refunded i db =
    sum_where (λ (r : Refund). r.order_id == i && is_done r.status) (λ r. r.amount) db.refunds

abbrev pub has_open_refund : ℕ → Db → Bool
has_open_refund i db = any (λ (r : Refund). r.order_id == i && not (is_done r.status)) db.refunds

-- What the marketplace is expected to pay for an order.
abbrev pub expected_amount : Order → ℕ → ℤ → ℤ
expected_amount o given_back adjustment =
    pos o.gross_sale
    -ℤ pos o.discount
    -ℤ pos o.fee
    -ℤ pos o.promotion_cost
    -ℤ pos given_back
    +ℤ adjustment

abbrev pub adjustment_entries : ℤ → Entries
adjustment_entries adjustment =
    (marketplace_receivable, adjustment) ∷ (settlement_variance, neg adjustment) ∷ []

abbrev pub statement_entries : ℕ → ℕ → Entries
statement_entries expected actual =
    (settlement_clearing, pos actual)
    ∷ (marketplace_receivable, neg (pos expected))
    ∷ (settlement_variance, pos expected -ℤ pos actual)
    ∷ []

-- `Settlement.external_id` is unique, so a number that another order's statement has is an error
-- of the database.
abbrev add_settlement : ℕ → ℕ → ℕ → ℕ → ℤ → ℕ → M ℕ
add_settlement order_id external_id expected actual adjustment hashed = do
  taken ← gets (λ db. any (λ (r : Settlement). r.external_id == external_id) db.settlements)
  raise_when taken unexpected
  i ← fresh
  modify (λ db. record db {
    settlements =
        record {
          id = i;
          order_id = order_id;
          external_id = external_id;
          expected = expected;
          actual = actual;
          adjustment = adjustment;
          input_hash = hashed;
          confirmed_cash = false;
        }
        ∷ db.settlements;
  })
  pure i

unfoldable pub new_settlement : Env → ℕ → ℕ → ℕ → ℤ → ℕ → Option Who → ℕ → M ℕ
new_settlement env order_id external_id actual adjustment tolerance actor hashed = do
  order ← fetch (find_order order_id)
  raise_when (not (same order.state OrderState.delivered)) (conflict settlement_requires_delivery)
  unsettled ← gets (has_open_refund order_id)
  raise_when unsettled (conflict pending_refund_reconciliation)
  given_back ← gets (refunded order_id)
  let due = expected_amount order given_back adjustment
  raise_when (ltb_ℤ due (pos 0)) (conflict negative_settlement_requires_manual_reconciliation)
  let expected = pos_part due
  i ← add_settlement order_id external_id expected actual adjustment hashed
  when (not (is_zero adjustment)) (
      post env (adjustment_key i) marketplace_adjustment (adjustment_entries adjustment)
        (some order_id))
  when (not (actual == 0) || not (expected == 0)) (
      post env (settlement_key i) settlement_statement (statement_entries expected actual)
        (some order_id))
  transition order_id OrderState.settlement_pending
  when (ltb tolerance (abs (pos actual -ℤ pos expected))) (review env settlement_anomaly i)
  on_some actor (audit settlement_reconciled i system) (λ who.
      intervention (InterventionKey.settlement_reconciled i) who (some order_id)
      >> audit settlement_reconciled i who)
  pure i

unfoldable pub reconcile_settlement : Env → ℕ → ℕ → ℤ → ℤ → ℤ → Option Who → M ℕ
reconcile_settlement env order_id external_id raw adjustment raw_tolerance actor = do
  actual ← lift (krw raw)
  raise_when (ltb 1000000000 (abs adjustment)) (conflict invalid_adjustment)
  raise_when (ltb_ℤ raw_tolerance (pos 0)) (conflict invalid_tolerance)
  let hashed = env.fingerprint (settlement_document order_id external_id (pos actual) adjustment)
  lock_treasury
  existing ← gets (λ db. find? (λ (r : Settlement). r.order_id == order_id) db.settlements)
  on_some existing
      (new_settlement env order_id external_id actual adjustment (pos_part raw_tolerance) actor
        hashed)
      (λ r. do raise_when (not (r.input_hash == hashed)) (conflict settlement_conflict); pure r.id)

abbrev pub is_refunded : ClaimStatus → Bool
is_refunded fully_refunded = true
is_refunded _ = false

abbrev pub cash_entries : ℕ → Entries
cash_entries actual = (bank, pos actual) ∷ (settlement_clearing, neg (pos actual)) ∷ []

-- `has_receipt` is `bool(receipt_id)`.
unfoldable pub confirm_settlement_cash : Env → ℕ → Bool → ℕ → Who → M (Unit {0})
confirm_settlement_cash env i has_receipt receipt_id actor = do
  raise_when (not has_receipt) (conflict confirmed_receipt_required)
  lock_treasury
  row ← fetch (find_settlement i)
  if row.confirmed_cash then pure tt else (do
    order ← fetch (find_order row.order_id)
    when (not (row.actual == 0)) (
        post env (bank_settlement_key receipt_id) bank_settlement (cash_entries row.actual)
          (some order.id))
    update_settlement i (λ r. record r { confirmed_cash = true })
    transition order.id OrderState.settled
    has_open ←
        gets (λ db.
          any (λ (c : Claim). c.order_id == order.id && not (is_refunded c.status)) db.claims)
    when (row.actual == row.expected && not has_open) (transition order.id OrderState.closed)
    intervention (InterventionKey.settlement_cash i) actor (some order.id)
    audit settlement_cash_confirmed i actor)
