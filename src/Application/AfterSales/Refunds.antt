-- ===== src/Application/AfterSales/Refunds.antt =====
-- `request_refund` and `execute_refund` of packages/application/after_sales.py.
use saup.Base.{
  ℕ, ◌+◌, Bool, true, false, not, ◌&&◌, ◌||◌, ◌==◌, ltb, Option, some, none, [], ◌∷◌, find?, any,
  sum_where, if◌then◌else◌, ℤ, pos, neg,
}
use saup.Domain.Errors.{
  Result, ok, err, integration, domain, conflict, invalid_refund, idempotency_conflict,
  claim_not_found, post_settlement_refund_requires_manual_reconciliation, claim_not_refundable,
  refund_exceeds_sale_or_claim,
}
use saup.Domain.Pricing.{krw}
use saup.Store.Db.{Db, Env}
use saup.Store.Keys.{
  refund_approval, refund_result_unknown, refund_execute, refund_job, by_id, refund_key,
  customer_refund, refund_expense, marketplace_receivable,
}
use saup.Store.Rows.{Who, system, Order, refund_approved, refund_created}
use saup.Store.CaseRows.{
  Claim, ClaimStatus, manual_review, refund_eligible, partially_refunded, fully_refunded, Refund,
  RefundStatus, Settlement, InterventionKey,
}
use saup.Store.Monad.{
  M, pure, raise, gets, lift, modify, fresh, on_some, raise_when, commit, ◌>>=◌, ◌>>◌,
}
use saup.Store.Tables.{fetch, find_order, find_claim, find_refund, update_claim, update_refund}
use saup.Application.Common.{audit, review, enqueue, lock_treasury}
use saup.Application.Finance.Ledger.{Entries, post}
use saup.Application.SupplierOperations.Terms.{intervention}

abbrev pub is_settled : ℕ → Db → Bool
is_settled order_id db = any (λ (r : Settlement). r.order_id == order_id) db.settlements

abbrev is_refundable : ClaimStatus → Bool
is_refundable refund_eligible = true
is_refundable manual_review = true
is_refundable partially_refunded = true
is_refundable fully_refunded = true
is_refundable _ = false

abbrev in_review : ClaimStatus → Bool
in_review manual_review = true
in_review _ = false

-- A refund that is asked for, under way or paid: every status but that of a failed one.
abbrev pub is_active : RefundStatus → Bool
is_active RefundStatus.failed = false
is_active _ = true

abbrev pub refunds_of_order : ℕ → Db → ℕ
refunds_of_order i db =
    sum_where (λ (r : Refund). r.order_id == i && is_active r.status) (λ r. r.amount) db.refunds

abbrev pub refunds_of_claim : ℕ → Db → ℕ
refunds_of_claim i db =
    sum_where (λ (r : Refund). r.claim_id == i && is_active r.status) (λ r. r.amount) db.refunds

abbrev has_actor : Option Who → Bool
has_actor none = false
has_actor (some who) = true

abbrev first_status : Bool → Bool → RefundStatus
first_status true manual = RefundStatus.evidence_pending
first_status false true = RefundStatus.manual_approval
first_status false false = RefundStatus.pending

-- Who is told about the new refund: nobody, a person, or the worker.
unfoldable pub announce_refund : Env → ℕ → Bool → Bool → M (Unit {0})
announce_refund env i true manual = pure tt
announce_refund env i false true = review env refund_approval i
announce_refund env i false false = enqueue env refund_execute (refund_job i) (by_id i) env.now

-- The row itself, and its announcement.
unfoldable pub add_refund : Env → Claim → Order → ℕ → ℕ → Option Who → Bool → M ℕ
add_refund env claim order amount key actor operational = do
  let manual = (ltb env.auto_refund_limit amount || in_review claim.status) && not (has_actor actor)
  i ← fresh
  modify (λ db. record db {
    refunds =
        record {
          id = i;
          claim_id = claim.id;
          order_id = order.id;
          business_key = key;
          amount = amount;
          status = first_status operational manual;
          provider_reference = none;
        }
        ∷ db.refunds;
  })
  announce_refund env i operational manual
  on_some actor (pure tt) (λ who.
      intervention (InterventionKey.refund_approval i) who (some order.id)
      >> audit refund_approved i who)
  pure i

-- A refund that nobody asked for under this key yet.
unfoldable pub new_refund : Env → ℕ → ℕ → ℕ → Option Who → Bool → M ℕ
new_refund env claim_id amount key actor operational = do
  row ← gets (find_claim claim_id)
  on_some row (raise (domain claim_not_found 404)) (λ claim. do
    order ← fetch (find_order claim.order_id)
    settled ← gets (is_settled order.id)
    raise_when settled (conflict post_settlement_refund_requires_manual_reconciliation)
    raise_when (not (is_refundable claim.status)) (conflict claim_not_refundable)
    total ← gets (refunds_of_order order.id)
    claim_total ← gets (refunds_of_claim claim.id)
    raise_when
        (ltb order.gross_sale (total + amount + order.discount)
          || ltb claim.requested_amount (claim_total + amount))
        (conflict refund_exceeds_sale_or_claim)
    add_refund env claim order amount key actor operational)

-- `key_length` is `len(key)`.
unfoldable pub request_refund : Env → ℕ → ℤ → ℕ → ℕ → Option Who → Bool → M ℕ
request_refund env claim_id raw key key_length actor operational = do
  amount ← lift (krw raw)
  raise_when (amount == 0 || key_length == 0 || ltb 160 key_length) (conflict invalid_refund)
  lock_treasury
  prior ← gets (λ db. find? (λ (r : Refund). r.business_key == key) db.refunds)
  on_some prior (new_refund env claim_id amount key actor operational) (λ r. do
    raise_when (not (r.claim_id == claim_id) || not (r.amount == amount))
        (conflict idempotency_conflict)
    pure r.id)

-- The first transaction of `execute_refund`: whether the marketplace is to be asked.
unfoldable pub start_by : RefundStatus → Env → Refund → M Bool
start_by RefundStatus.succeeded env row = pure false
start_by RefundStatus.manual_approval env row = pure false
start_by RefundStatus.unknown env row = pure false
start_by RefundStatus.evidence_pending env row = pure false
start_by RefundStatus.sending env row = do
  update_refund row.id (λ r. record r { status = RefundStatus.unknown })
  review env refund_result_unknown row.id
  pure false
start_by _ env row = do
  order ← fetch (find_order row.order_id)
  update_refund row.id (λ r. record r { status = RefundStatus.sending })
  pure true

unfoldable pub start_refund : Env → ℕ → M Bool
start_refund env i = do lock_treasury; row ← fetch (find_refund i); start_by row.status env row

unfoldable pub lose_refund : Env → ℕ → M (Unit {0})
lose_refund env i = do
  lock_treasury
  row ← fetch (find_refund i)
  update_refund i (λ r. record r { status = RefundStatus.unknown })
  review env refund_result_unknown i

abbrev pub is_done : RefundStatus → Bool
is_done RefundStatus.succeeded = true
is_done _ = false

-- A refund is taken from what the marketplace owes, not from the bank.
abbrev pub refund_entries : ℕ → Entries
refund_entries amount =
    (refund_expense, pos amount) ∷ (marketplace_receivable, neg (pos amount)) ∷ []

abbrev pub paid_back : ℕ → Claim → Claim
paid_back amount claim =
    let given = claim.customer_refund + amount in
    let status : ClaimStatus =
      if given == claim.requested_amount then fully_refunded else partially_refunded in
    record claim { customer_refund = given; status = status }

-- The last transaction of `execute_refund`, with the marketplace's receipt.
unfoldable pub finish_refund : Env → ℕ → ℕ → M (Unit {0})
finish_refund env i reference = do
  lock_treasury
  row ← fetch (find_refund i)
  if is_done row.status then pure tt else (do
    order ← fetch (find_order row.order_id)
    claim ← fetch (find_claim row.claim_id)
    post env (refund_key i) customer_refund (refund_entries row.amount) (some order.id)
    update_refund i
        (λ r. record r { status = RefundStatus.succeeded; provider_reference = some reference })
    update_claim claim.id (paid_back row.amount)
    audit refund_created i system)

-- The marketplace's receipt, or its exception.
unfoldable pub after_refund_call : Env → ℕ → Result ℕ → M (Unit {0})
after_refund_call env i (ok reference) = finish_refund env i reference
after_refund_call env i (err (integration code retryable uncertain)) = lose_refund env i
after_refund_call env i (err e) = raise e

unfoldable pub execute_refund : Env → ℕ → Result ℕ → Db → Result (Unit {0}) × Db
execute_refund env i receipt db =
    let (sent, mid) = commit (start_refund env i) db in
    elim sent [
      | err e ↦ (err e, mid)
      | ok false ↦ (ok tt, mid)
      | ok true ↦ commit (after_refund_call env i receipt) mid
    ]
