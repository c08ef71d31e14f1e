-- ===== src/Application/Operations/Cases.antt =====
-- `response`, `recovery` and `confirm_refund` of packages/application/operations.py. `claim` and
-- `request_refund` only call the services of after sales.
use saup.Base.{ℕ, ◌+◌, Bool, true, false, not, ◌&&◌, ◌||◌, ◌==◌, ltb, Option, some, none, any, pos}
use saup.Domain.Errors.{
  conflict, domain, validation, claim_not_found, refund_not_found, recovery_already_recorded,
  recovery_receipt_in_use, refund_identity_mismatch, refund_not_awaiting_manual_evidence,
  claim_not_refundable, post_settlement_refund_requires_manual_reconciliation,
  refund_exceeds_sale_or_claim, sale_accounting_required, refund_fee_reconciliation_required,
}
use saup.Domain.OperatorCommands.{
  ClaimResponse, response_valid, FundsInput, funds_valid, RefundConfirmation, refund_valid,
}
use saup.Domain.OrderState.{OrderState, same}
use saup.Domain.SupplierState.{Actor, require, operator, admin}
use saup.Store.Db.{Db, Env}
use saup.Store.Keys.{
  JournalKind, journal_key_eq, recovery_key, refund_key, sale_recognized, customer_refund,
  claim_response_confirmed, claim_recovery_confirmed, customer_refund_confirmed, on_row,
  claim_response_evidence, recovery_from, refund_of, response_document, funds_document,
  refund_document,
}
use saup.Store.Rows.{Order, Journal, user}
use saup.Store.CaseRows.{
  Claim, ClaimStatus, refund_eligible, manual_review, partially_refunded, Refund, RefundStatus,
  CancellationRecovery,
}
use saup.Store.Monad.{M, pure, raise, gets, lift, on_some, raise_when, ◌>>=◌, ◌>>◌}
use saup.Store.Tables.{find_claim, find_refund, update_claim, update_refund}
use saup.Application.Common.{lock_treasury}
use saup.Application.Finance.Ledger.{post}
use saup.Application.OrderRules.{context}
use saup.Application.AfterSales.Claims.{supplier_response, confirm_supplier_recovery}
use saup.Application.AfterSales.Refunds.{
  is_settled, refunds_of_order, refunds_of_claim, refund_entries, paid_back,
}
use saup.Application.AfterSales.Settlements.{refunded}
use saup.Application.Operations.{receipt}
use saup.Application.Operations.Delivery.{get_order}

unfoldable pub get_claim : ℕ → M Claim
get_claim i = do
  row ← gets (find_claim i)
  on_some row (raise (domain claim_not_found 404)) (λ c. pure c)

unfoldable pub get_refund : ℕ → M Refund
get_refund i = do
  row ← gets (find_refund i)
  on_some row (raise (domain refund_not_found 404)) (λ r. pure r)

unfoldable pub confirm_response : Env → ℕ → ClaimResponse → Actor → M ℕ
confirm_response env claim_id cmd actor = do
  lift (require actor operator)
  raise_when (not (response_valid cmd)) validation
  lock_treasury
  get_claim claim_id
  receipt env claim_response_confirmed (on_row claim_id) claim_response_evidence cmd.evidence
      (response_document cmd) actor
      (supplier_response env claim_id (pos cmd.amount) cmd.accepted (user actor.name) true)

abbrev is_recovery_booked : ℕ → ℕ → Db → Bool
is_recovery_booked supplier_id reference db =
    any (λ (j : Journal). journal_key_eq j.business_key (recovery_key supplier_id reference))
      db.journals

abbrev is_cancellation_receipt : ℕ → ℕ → Db → Bool
is_cancellation_receipt supplier_id reference db =
    any (λ (r : CancellationRecovery). r.supplier_id == supplier_id && r.reference == reference)
      db.cancellation_recoveries

-- The same receipt of the supplier has been used neither for a claim nor for a paid cancellation.
unfoldable pub recover_claim : Env → Claim → ℕ → ℕ → ℕ → Actor → M (Unit {0})
recover_claim env claim supplier_id amount reference actor = do
  raise_when (not (claim.supplier_recovery == 0)) (conflict recovery_already_recorded)
  booked ← gets (is_recovery_booked supplier_id reference)
  raise_when booked (conflict recovery_receipt_in_use)
  taken ← gets (is_cancellation_receipt supplier_id reference)
  raise_when taken (conflict recovery_receipt_in_use)
  confirm_supplier_recovery env claim.id (pos amount) true reference (user actor.name)

unfoldable pub recovery : Env → ℕ → FundsInput → Actor → M ℕ
recovery env claim_id cmd actor = do
  lift (require actor admin)
  raise_when (not (funds_valid cmd)) validation
  lock_treasury
  claim ← get_claim claim_id
  o ← get_order claim.order_id
  c ← context o
  receipt env claim_recovery_confirmed (on_row claim.id) (recovery_from c.supplier.id) cmd.evidence
      (funds_document cmd) actor
      (recover_claim env claim c.supplier.id cmd.amount cmd.evidence.reference actor)

abbrev awaits_evidence : RefundStatus → Bool
awaits_evidence RefundStatus.evidence_pending = true
awaits_evidence _ = false

abbrev may_refund : ClaimStatus → Bool
may_refund refund_eligible = true
may_refund manual_review = true
may_refund partially_refunded = true
may_refund _ = false

abbrev is_sale : JournalKind → Bool
is_sale sale_recognized = true
is_sale _ = false

abbrev is_order : Option ℕ → ℕ → Bool
is_order none i = false
is_order (some j) i = j == i

abbrev has_sale : ℕ → Db → Bool
has_sale i db = any (λ (j : Journal). is_order j.order_id i && is_sale j.kind) db.journals

-- Everything that has to hold before a refund that was made by hand is booked.
unfoldable pub check_refund : RefundConfirmation → Refund → Claim → Order → M (Unit {0})
check_refund cmd r claim o = do
  raise_when
      (not (
          cmd.order_id == o.id
          && cmd.claim_id == claim.id
          && cmd.amount == r.amount
          && cmd.marketplace == o.marketplace)
        || not (claim.order_id == o.id))
      (conflict refund_identity_mismatch)
  raise_when (not (awaits_evidence r.status)) (conflict refund_not_awaiting_manual_evidence)
  raise_when (not (may_refund claim.status)) (conflict claim_not_refundable)
  settled ← gets (is_settled o.id)
  raise_when (not (same o.state OrderState.delivered) || settled)
      (conflict post_settlement_refund_requires_manual_reconciliation)
  total ← gets (refunds_of_order o.id)
  raise_when (ltb o.gross_sale (total + o.discount)) (conflict refund_exceeds_sale_or_claim)
  claim_total ← gets (refunds_of_claim claim.id)
  raise_when (ltb claim.requested_amount claim_total) (conflict refund_exceeds_sale_or_claim)
  raise_when (ltb claim.requested_amount (claim.customer_refund + r.amount))
      (conflict refund_exceeds_sale_or_claim)
  sold ← gets (has_sale o.id)
  raise_when (not sold) (conflict sale_accounting_required)
  given ← gets (refunded o.id)
  raise_when (ltb o.gross_sale (given + r.amount + o.discount + o.fee + o.promotion_cost))
      (conflict refund_fee_reconciliation_required)

-- The refund keeps no reference of a provider.
unfoldable pub book_refund : Env → RefundConfirmation → Refund → Claim → Order → M (Unit {0})
book_refund env cmd r claim o = do
  check_refund cmd r claim o
  post env (refund_key r.id) customer_refund (refund_entries r.amount) (some o.id)
  update_refund r.id (λ x. record x { status = RefundStatus.succeeded })
  update_claim claim.id (paid_back r.amount)

unfoldable pub confirm_refund : Env → ℕ → RefundConfirmation → Actor → M ℕ
confirm_refund env refund_id cmd actor = do
  lift (require actor admin)
  raise_when (not (refund_valid cmd)) validation
  lock_treasury
  r ← get_refund refund_id
  claim ← get_claim r.claim_id
  o ← get_order r.order_id
  receipt env customer_refund_confirmed (on_row r.id) (refund_of o.marketplace) cmd.evidence
      (refund_document cmd) actor (book_refund env cmd r claim o)
