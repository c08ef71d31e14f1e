-- ===== src/Application/SupplierOperations/Evidence.antt =====
-- `record_evidence` and `confirm_evidence` of packages/application/supplier_operations.py: a payment that
-- people made outside of the program, recorded by an operator and attested by an administrator.
use saup.Base.{
  ℕ, ◌+◌, Bool, true, false, not, ◌&&◌, ◌||◌, ◌==◌, ltb, Option, some, none, [], ◌∷◌, find?,
  if◌then◌else◌,
}
use saup.Domain.Errors.{
  Code, Error, Result, ok, err, domain, conflict, integration, validation, unexpected,
  address_error, supplier_resource_not_found, payment_evidence_conflict,
  payment_evidence_reference_in_use, payment_evidence_not_allowed,
  payment_evidence_snapshot_mismatch, payment_evidence_requires_reconciliation,
  payment_confirmation_conflict, payment_evidence_correction_required, stale_evidence_revision,
  payment_confirmation_snapshot_mismatch, payment_not_evidence_confirmable,
  payment_approval_required, daily_payment_limit,
}
use saup.Domain.OrderState.{OrderState}
use saup.Domain.SupplierCommands.{EvidenceRecord, evidence_valid, EvidenceConfirm, positive_money}
use saup.Domain.SupplierState.{Actor, require, operator, admin}
use saup.Store.Db.{Db, Env}
use saup.Store.Keys.{by_code, evidence_document, payment_document, payment_approval}
use saup.Store.Rows.{Event, Payment, PaymentStatus, Receipt, Reservation, user}
use saup.Store.CaseRows.{BatchItem, Confirmation, Intent, InterventionKey, Proof}
use saup.Store.Monad.{
  M, pure, raise, gets, lift, modify, fresh, catch, commit, on_some, raise_when, ◌>>=◌, ◌>>◌,
}
use saup.Store.Tables.{find_payment, reservation_of, update_payment}
use saup.Application.Common.{audit, lock_treasury, review}
use saup.Application.Commerce.Payments.{is_manual, is_approved}
use saup.Application.Finance.Treasury.{daily_commitments, is_held, settle_payment}
use saup.Application.OrderRules.{transition}
use saup.Application.PaymentEvidence.{effective_evidence, correction_pending, reference_in_use}
use saup.Application.SupplierOperations.Batches.{present_line, present_batch}
use saup.Application.SupplierOperations.Cancel.{present_order}
use saup.Application.SupplierOperations.Terms.{
  active_item, intent, intervention, is_accepted, payment_completed, resolve_reviews, same_option,
  validate_payable,
}

-- `self.get`, for a payment and its evidence.
unfoldable pub present_payment : ℕ → M Payment
present_payment payment_id = do
  row ← gets (find_payment payment_id)
  on_some row (raise (domain supplier_resource_not_found 404)) (λ p. pure p)

unfoldable pub present_proof : ℕ → M Proof
present_proof evidence_id = do
  row ← gets (λ db. find? (λ (e : Proof). e.id == evidence_id) db.proofs)
  on_some row (raise (domain supplier_resource_not_found 404)) (λ e. pure e)

abbrev pub awaits_evidence : PaymentStatus → Bool
awaits_evidence PaymentStatus.evidence_pending = true
awaits_evidence PaymentStatus.manual_approval = true
awaits_evidence _ = false

-- What was reserved is what the evidence says was paid.
abbrev fits_reservation : EvidenceRecord → Option Reservation → Bool
fits_reservation cmd none = false
fits_reservation cmd (some r) =
    is_held r.status && cmd.bank_amount == r.bank_amount && cmd.deposit_amount == r.deposit_amount

abbrev fits_payment : EvidenceRecord → Payment → Intent → Bool
fits_payment cmd payment v =
    cmd.amount == payment.amount
    && cmd.supplier_id == v.supplier_id
    && cmd.destination_fingerprint == payment.destination_fingerprint

-- The evidence's row; the result is its identifier.
unfoldable pub add_proof : Env → Payment → EvidenceRecord → ℕ → Actor → M ℕ
add_proof env payment cmd order_id actor = do
  i ← fresh
  modify (λ db. record db {
    proofs =
        record {
          id = i;
          payment_id = payment.id;
          supplier_id = cmd.supplier_id;
          method = cmd.method;
          amount = cmd.amount;
          bank_amount = cmd.bank_amount;
          deposit_amount = cmd.deposit_amount;
          destination_fingerprint = cmd.destination_fingerprint;
          reference = cmd.reference;
          evidence_hash = cmd.evidence_hash;
          payload_hash = env.fingerprint (evidence_document cmd);
          recorded_by = user actor.name;
        }
        ∷ db.proofs;
  })
  audit Event.supplier_payment_evidence_recorded i (user actor.name)
  intervention (InterventionKey.evidence_recorded i) (user actor.name) (some order_id)
  pure i

-- The batch of a payment that waits for evidence.
unfoldable pub manual_batch : Payment → Option BatchItem → M BatchItem
manual_batch payment none = raise (conflict payment_evidence_not_allowed)
manual_batch payment (some item) = do
  batch ← present_batch item.batch_id
  raise_when (not (is_manual batch.payment_path) || not (awaits_evidence payment.status))
      (conflict payment_evidence_not_allowed)
  pure item

-- A mismatch opens a review and is raised after the commit: it is the transaction's result.
unfoldable pub judge_evidence : Env → Payment → EvidenceRecord → Actor → M (Result ℕ)
judge_evidence env payment cmd actor = do
  used ← gets (reference_in_use cmd.supplier_id cmd.reference payment.id)
  raise_when used (conflict payment_evidence_reference_in_use)
  so ← present_order payment.supplier_order_id
  v ← intent env so.id
  active ← gets (active_item so.id)
  item ← manual_batch payment active
  order ← present_line payment.order_id
  reservation ← gets (reservation_of order.id)
  if not (fits_payment cmd payment v) || not (fits_reservation cmd reservation)
      then (do
        review env (by_code payment_evidence_snapshot_mismatch) payment.id
        audit Event.supplier_payment_evidence_rejected payment.id (user actor.name)
        pure (err (conflict payment_evidence_snapshot_mismatch)))
      else if order.cancel_requested || not (is_accepted item.ack_status)
      then (do
        review env (by_code payment_evidence_requires_reconciliation) payment.id
        pure (err (conflict payment_evidence_requires_reconciliation)))
      else (add_proof env payment cmd order.id actor >>= λ i. pure (ok i))

abbrev pub proof_of : ℕ → Db → Option Proof
proof_of payment_id db = find? (λ (e : Proof). e.payment_id == payment_id) db.proofs

-- The transaction of `record_evidence`.
unfoldable pub note_evidence : Env → ℕ → EvidenceRecord → Actor → M (Result ℕ)
note_evidence env payment_id cmd actor = do
  lift (require actor operator)
  raise_when (not (evidence_valid cmd)) validation
  lock_treasury
  payment ← present_payment payment_id
  prior ← gets (proof_of payment.id)
  on_some prior (judge_evidence env payment cmd actor) (λ e. do
    raise_when (not (e.payload_hash == env.fingerprint (evidence_document cmd)))
        (conflict payment_evidence_conflict)
    pure (ok e.id))

-- The result of a transaction whose error is raised after its commit.
abbrev pub raised_late : Result (Result ℕ) × Db → Result ℕ × Db
raised_late (ok r, db) = (r, db)
raised_late (err e, db) = (err e, db)

unfoldable pub record_evidence : Env → ℕ → EvidenceRecord → Actor → Db → Result ℕ × Db
record_evidence env payment_id cmd actor db =
    raised_late (commit (note_evidence env payment_id cmd actor) db)

abbrev pub is_evidence_pending : PaymentStatus → Bool
is_evidence_pending PaymentStatus.evidence_pending = true
is_evidence_pending _ = false

-- The checks of a confirmation; none of them writes.
unfoldable pub check_confirmation : Env → Payment → Proof → EvidenceConfirm → M (Unit {0})
check_confirmation env payment proof cmd = do
  effective ← gets (effective_evidence proof)
  pending ← gets (correction_pending proof.id)
  raise_when pending (conflict payment_evidence_correction_required)
  raise_when (not (same_option cmd.evidence_revision_id effective.revision_id))
      (conflict stale_evidence_revision)
  raise_when
      (not (cmd.amount == payment.amount)
        || not (cmd.amount == proof.amount)
        || not (cmd.destination_fingerprint == payment.destination_fingerprint)
        || not (cmd.destination_fingerprint == proof.destination_fingerprint)
        || not (cmd.reference == effective.reference))
      (conflict payment_confirmation_snapshot_mismatch)
  raise_when (not (is_evidence_pending payment.status)) (conflict payment_not_evidence_confirmable)
  batch ← validate_payable env payment.order_id payment.supplier_order_id
  raise_when (not (is_manual batch.payment_path)) (conflict payment_evidence_not_allowed)
  raise_when (ltb env.auto_payment_limit payment.amount && not (is_approved payment.approved_by))
      (conflict payment_approval_required)
  others ← gets (daily_commitments (some payment.id) env.now)
  raise_when (ltb env.daily_payment_limit (others + payment.amount)) (conflict daily_payment_limit)

-- The code of an exception that `confirm_evidence` turns into a review.
abbrev refusal : Error → Option Code
refusal (domain code status) = some code
refusal validation = some address_error
refusal (integration code retryable uncertain) = none
refusal unexpected = none

unfoldable pub block_confirmation : Env → Payment → Actor → Error → M (Result ℕ)
block_confirmation env payment actor e = on_some (refusal e) (raise e) (λ code. do
  review env (by_code code) payment.id
  audit Event.supplier_payment_confirmation_blocked payment.id (user actor.name)
  pure (err (conflict code)))

unfoldable pub bind_revision : ℕ → Option ℕ → M (Unit {0})
bind_revision confirmation_id none = pure tt
bind_revision confirmation_id (some revision_id) = modify (λ db. record db {
  confirmation_bindings =
      record { confirmation_id = confirmation_id; revision_id = revision_id }
      ∷ db.confirmation_bindings;
})

unfoldable pub add_confirmation : Env → Payment → Proof → EvidenceConfirm → Actor → M ℕ
add_confirmation env payment proof cmd actor = do
  i ← fresh
  modify (λ db. record db {
    confirmations =
        record {
          id = i;
          evidence_id = proof.id;
          payment_id = payment.id;
          payload_hash = env.fingerprint (payment_document cmd);
          actor = user actor.name;
          amount = cmd.amount;
          destination_fingerprint = cmd.destination_fingerprint;
          reference = cmd.reference;
        }
        ∷ db.confirmations;
  })
  effective ← gets (effective_evidence proof)
  bind_revision i effective.revision_id
  pure i

-- The money was moved: the ledger, the order and the supplier order follow.
unfoldable pub pay_by_evidence : Env → Payment → Proof → EvidenceConfirm → Actor → M (Result ℕ)
pay_by_evidence env payment proof cmd actor = do
  i ← add_confirmation env payment proof cmd actor
  update_payment payment.id (λ p. record p { dispatched_at = some env.now })
  settle_payment env payment (Receipt.manual proof.id)
  transition payment.order_id OrderState.supplier_paid
  transition payment.order_id OrderState.shipment_pending
  payment_completed env payment
  resolve_reviews payment.id
      (payment_approval
        ∷ by_code payment_evidence_snapshot_mismatch
        ∷ by_code payment_confirmation_snapshot_mismatch
        ∷ by_code stale_evidence_revision
        ∷ by_code payment_evidence_correction_required
        ∷ [])
      (user actor.name)
  audit Event.supplier_payment_confirmed payment.id (user actor.name)
  intervention (InterventionKey.payment_confirmed payment.id) (user actor.name)
      (some payment.order_id)
  pure (ok i)

unfoldable pub judge_confirmation : Env → Payment → Proof → EvidenceConfirm → Actor → M (Result ℕ)
judge_confirmation env payment proof cmd actor = do
  order ← present_line payment.order_id
  so ← present_order payment.supplier_order_id
  refused ← catch (check_confirmation env payment proof cmd >> pure none) (λ e. pure (some e))
  on_some refused (pay_by_evidence env payment proof cmd actor)
      (block_confirmation env payment actor)

-- The transaction of `confirm_evidence`.
unfoldable pub attest_evidence : Env → ℕ → EvidenceConfirm → Actor → M (Result ℕ)
attest_evidence env evidence_id cmd actor = do
  lift (require actor admin)
  raise_when (not (positive_money cmd.amount)) validation
  lock_treasury
  proof ← present_proof evidence_id
  payment ← present_payment proof.payment_id
  prior ← gets (λ db. find? (λ (c : Confirmation). c.evidence_id == proof.id) db.confirmations)
  on_some prior (judge_confirmation env payment proof cmd actor) (λ c. do
    raise_when (not (c.payload_hash == env.fingerprint (payment_document cmd)))
        (conflict payment_confirmation_conflict)
    pure (ok c.id))

unfoldable pub confirm_evidence : Env → ℕ → EvidenceConfirm → Actor → Db → Result ℕ × Db
confirm_evidence env evidence_id cmd actor db =
    raised_late (commit (attest_evidence env evidence_id cmd actor) db)
