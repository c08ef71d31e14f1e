-- ===== src/Application/SupplierOperations/Acknowledge.antt =====
-- `acknowledge` of packages/application/supplier_operations.py: what the supplier answered to a batch,
-- line by line.
pub mod Coverage
use saup.Base.{
  ℕ, Bool, true, false, not, ◌||◌, ◌==◌, Option, some, none, List, [], ◌∷◌, ◌++◌, map, find?, all,
  repeats, within, sort_by, sorted_numbers, if◌then◌else◌,
}
use saup.Domain.Errors.{
  conflict, domain, validation, supplier_ack_conflict, supplier_batch_not_sent,
  ack_batch_membership_mismatch, ack_change_membership_mismatch, supplier_order_rejected,
  supplier_terms_changed,
}
use saup.Domain.OrderState.{OrderState}
use saup.Domain.SupplierCommands.{
  Acknowledge, acknowledge_valid, RejectedLine, RejectionReason, ReportedChange,
}
use saup.Domain.SupplierState.{SupplierState, Actor, require, operator}
use saup.Store.Db.{Env}
use saup.Store.Keys.{
  by_code, acknowledgement_document, supplier_file_ack_required, supplier_cancellation_required,
}
use saup.Store.Rows.{Event, user, Order, SupplierOrder}
use saup.Store.CaseRows.{
  Acknowledgement, AckStatus, ack_accepted, ack_rejected, ack_review, Batch, BatchItem, BatchStatus,
  Intent, InterventionKey, LineReason, rejected_for, terms_changed,
}
use saup.Store.Monad.{
  M, pure, gets, lift, modify, on_some, when, raise_when, for_each, collect, ◌>>=◌, ◌>>◌,
}
use saup.Store.Tables.{find_supplier_order, fetch, update_batch, update_lines}
use saup.Application.Common.{audit, lock_treasury, review}
use saup.Application.Commerce.Intake.{hold}
use saup.Application.Commerce.Payments.{prepare_payment}
use saup.Application.Finance.Treasury.{release}
use saup.Application.OrderRules.{context, pause_listing, transition}
use saup.Application.SupplierOperations.Batches.{items_of, present_batch, present_line}
use saup.Application.SupplierOperations.Cancel.{present_order}
use saup.Application.SupplierOperations.Request.{is_line, is_none}
use saup.Application.SupplierOperations.Terms.{
  supplier_transition, intervention, intent, is_accepted, resolve_reviews,
}

abbrev differs : Option ℕ → ℕ → Bool
differs none n = false
differs (some m) n = not (m == n)

-- Whether the supplier reported terms that are not the frozen ones.
unfoldable pub has_changed : Option ReportedChange → Intent → Bool
has_changed none v = false
has_changed (some c) v =
    differs c.amount v.amount
    || differs c.shipping v.snapshot.shipping
    || differs c.quantity v.snapshot.quantity
    || differs c.sku v.snapshot.supplier_sku
    || c.destination_changed

abbrev change_of : Acknowledge → ℕ → Option ReportedChange
change_of cmd so_id =
    find? (λ (c : ReportedChange). c.supplier_order_id == so_id) cmd.reported_changes

abbrev reason_of : Acknowledge → ℕ → Option RejectionReason
reason_of cmd so_id =
    elim (find? (λ (l : RejectedLine). l.supplier_order_id == so_id) cmd.rejected) [
      | none ↦ none
      | some l ↦ some l.reason
    ]

unfoldable pub answer_line : BatchItem → AckStatus → Option ℕ → Option LineReason → M (Unit {0})
answer_line item status accepted_amount reason =
    update_lines (is_line item.batch_id item.supplier_order_id) (λ r. record r {
      ack_status = status;
      accepted_amount = accepted_amount;
      rejection_reason = reason;
    })

-- A supplier order whose cancellation is under way or done.
abbrev is_ending : SupplierState → Bool
is_ending SupplierState.cancel_pending = true
is_ending SupplierState.cancelled = true
is_ending _ = false

abbrev is_price : Option RejectionReason → Bool
is_price (some RejectionReason.price_changed) = true
is_price _ = false

abbrev changed_reason : Option RejectionReason → LineReason
changed_reason none = terms_changed
changed_reason (some reason) = rejected_for RejectionReason.price_changed

unfoldable pub pause_line : Env → Order → M (Unit {0})
pause_line env order = do c ← context order; pause_listing env c.listing.id

-- Terms that are not the frozen ones are a person's matter.
unfoldable pub review_line :
    Env → BatchItem → SupplierOrder → Order → Option RejectionReason → Actor → M (Unit {0})
review_line env item so order reason actor = do
  answer_line item ack_review item.accepted_amount (some (changed_reason reason))
  when (not (is_ending so.status)) (do
    supplier_transition so.id SupplierState.manual_review (user actor.name)
    hold env order.id supplier_terms_changed)
  review env (by_code supplier_terms_changed) so.id
  pause_line env order

abbrev pauses_listing : RejectionReason → Bool
pauses_listing RejectionReason.sold_out = true
pauses_listing RejectionReason.sku_not_found = true
pauses_listing _ = false

unfoldable pub reject_line :
    Env → BatchItem → SupplierOrder → Order → RejectionReason → Actor → M (Unit {0})
reject_line env item so order reason actor = do
  answer_line item ack_rejected item.accepted_amount (some (rejected_for reason))
  audit Event.supplier_order_rejected so.id (user actor.name)
  when (pauses_listing reason) (pause_line env order)
  when (not (is_ending so.status)) (do
    supplier_transition so.id SupplierState.rejected (user actor.name)
    release order false
    hold env order.id supplier_order_rejected)
  review env (by_code supplier_order_rejected) so.id

abbrev is_cancelling : SupplierState → Bool
is_cancelling SupplierState.cancel_pending = true
is_cancelling _ = false

-- Whether a payment is to be prepared.
unfoldable pub accept_line : Env → BatchItem → SupplierOrder → Order → ℕ → Actor → M (Option ℕ)
accept_line env item so order amount actor = do
  answer_line item ack_accepted (some amount) item.rejection_reason
  audit Event.supplier_order_accepted so.id (user actor.name)
  if order.cancel_requested || is_cancelling so.status
      then review env supplier_cancellation_required so.id >> pure none
      else (do
        supplier_transition so.id SupplierState.acknowledged (user actor.name)
        transition order.id OrderState.supplier_ordered
        pure (some so.id))

unfoldable pub decide_line :
    Env
    → BatchItem
    → SupplierOrder
    → Order
    → Bool
    → Option RejectionReason
    → ℕ
    → Actor
    → M (Option ℕ)
decide_line env item so order changed reason amount actor =
    if changed || is_price reason
    then review_line env item so order reason actor >> pure none
    else on_some reason (accept_line env item so order amount actor)
        (λ r. reject_line env item so order r actor >> pure none)

unfoldable pub acknowledge_line : Env → ℕ → Acknowledge → Actor → BatchItem → M (Option ℕ)
acknowledge_line env batch_id cmd actor item = do
  so ← present_order item.supplier_order_id
  order ← present_line so.order_id
  v ← intent env so.id
  resolve_reviews order.id (supplier_file_ack_required ∷ []) (user actor.name)
  intervention (InterventionKey.acknowledged batch_id so.id) (user actor.name) (some order.id)
  decide_line env item so order (has_changed (change_of cmd so.id) v) (reason_of cmd so.id) v.amount
      actor

-- The order of a supplier order that was accepted.
unfoldable pub prepare_accepted : Env → ℕ → M (Unit {0})
prepare_accepted env so_id = do
  so ← fetch (find_supplier_order so_id)
  prepare_payment env so.order_id so.id

abbrev is_rejection : BatchItem → Bool
is_rejection item = elim item.ack_status [ ack_rejected ↦ true | _ ↦ false ]

-- The batch's outcome, by those of its lines.
abbrev outcome_of : List BatchItem → BatchStatus
outcome_of items =
    if all (λ (i : BatchItem). is_accepted i.ack_status) items
    then BatchStatus.acknowledged
    else if all is_rejection items
    then BatchStatus.rejected
    else BatchStatus.partial

abbrev keeps_status : BatchStatus → Bool
keeps_status BatchStatus.cancel_pending = true
keeps_status _ = false

abbrev awaits_answer : BatchStatus → Bool
awaits_answer BatchStatus.sent = true
awaits_answer BatchStatus.cancel_pending = true
awaits_answer _ = false

abbrev pub reported_ids : Acknowledge → List ℕ
reported_ids cmd =
    cmd.accepted_order_ids ++ map (λ (l : RejectedLine). l.supplier_order_id) cmd.rejected

abbrev pub changed_ids : Acknowledge → List ℕ
changed_ids cmd = map (λ (c : ReportedChange). c.supplier_order_id) cmd.reported_changes

abbrev line_ids : List BatchItem → List ℕ
line_ids items = map (λ (i : BatchItem). i.supplier_order_id) items

-- Every line of the batch is answered exactly once, and only lines of the batch have changes.
unfoldable pub check_answer : Acknowledge → List ℕ → M (Unit {0})
check_answer cmd ids = do
  raise_when
      (repeats (reported_ids cmd)
        || not (within (reported_ids cmd) ids)
        || not (within ids (reported_ids cmd)))
      (domain ack_batch_membership_mismatch 422)
  raise_when (repeats (changed_ids cmd) || not (within (changed_ids cmd) ids))
      (domain ack_change_membership_mismatch 422)

unfoldable pub canonical : Acknowledge → Acknowledge
canonical cmd = record cmd {
  accepted_order_ids = sorted_numbers cmd.accepted_order_ids;
  rejected = sort_by (λ (l : RejectedLine). l.supplier_order_id) cmd.rejected;
  reported_changes = sort_by (λ (c : ReportedChange). c.supplier_order_id) cmd.reported_changes;
}

-- All lines are decided before any payment is prepared.
unfoldable pub answer_batch : Env → Batch → Acknowledge → Actor → M (Unit {0})
answer_batch env batch cmd actor = do
  raise_when (is_none batch.sent_at || not (awaits_answer batch.status))
      (conflict supplier_batch_not_sent)
  items ← gets (items_of batch.id)
  check_answer cmd (line_ids items)
  modify (λ db. record db {
    acknowledgements =
        record {
          batch_id = batch.id;
          payload_hash = env.fingerprint (acknowledgement_document (canonical cmd));
          reference = cmd.reference;
          actor = user actor.name;
        }
        ∷ db.acknowledgements;
  })
  update_batch batch.id
      (λ b. record b { acknowledged_at = some env.now; acknowledged_by = some (user actor.name) })
  accepted ← collect items (acknowledge_line env batch.id cmd actor)
  for_each accepted (prepare_accepted env)
  after ← gets (items_of batch.id)
  when (not (keeps_status batch.status))
      (update_batch batch.id (λ b. record b { status = outcome_of after }))
  audit Event.supplier_batch_acknowledged batch.id (user actor.name)

-- A repeated answer changes nothing, and a different one is refused.
unfoldable pub acknowledge : Env → ℕ → Acknowledge → Actor → M (Unit {0})
acknowledge env batch_id cmd actor = do
  lift (require actor operator)
  raise_when (not (acknowledge_valid cmd)) validation
  lock_treasury
  batch ← present_batch batch_id
  prior ← gets (λ db. find? (λ (a : Acknowledgement). a.batch_id == batch.id) db.acknowledgements)
  on_some prior (answer_batch env batch cmd actor) (λ a.
      raise_when
        (not (a.payload_hash == env.fingerprint (acknowledgement_document (canonical cmd))))
        (conflict supplier_ack_conflict))
