-- ===== src/Application/SupplierOperations/Request.antt =====
-- `request_cancellation_in_session` of packages/application/supplier_operations.py: the request to
-- cancel a supplier order, which ends at once only where nothing was sent and no money moved.
use saup.Base.{
  ℕ, Bool, true, false, not, ◌&&◌, ◌||◌, ◌==◌, Option, some, none, [], ◌∷◌, find?, map,
  if◌then◌else◌,
}
use saup.Domain.Errors.{domain, supplier_resource_not_found, supplier_order_rejected}
use saup.Domain.OrderState.{OrderState}
use saup.Domain.OrderState
use saup.Domain.SupplierState.{SupplierState}
use saup.Domain.SupplierState
use saup.Store.Db.{Db, Env}
use saup.Store.Keys.{
  by_code, supplier_file_ack_required, supplier_cancellation_required,
  supplier_cancellation_financial_review,
}
use saup.Store.Rows.{
  Who, Payment, PaymentStatus, SupplierOrder, supplier_cancellation_requested,
  supplier_batch_invalidated, supplier_cancellation_confirmed,
}
use saup.Store.CaseRows.{
  Batch, BatchItem, BatchStatus, AckStatus, ack_rejected, Proof, Cancellation, request_pending,
  confirmed_local, cancel_request,
}
use saup.Store.Monad.{M, pure, raise, gets, modify, on_some, when, for_each, ◌>>=◌, ◌>>◌}
use saup.Store.Tables.{
  fetch, find_order, find_supplier_order, find_batch, update_order, update_payment, update_batch,
  update_lines,
}
use saup.Application.Common.{audit, review}
use saup.Application.Finance.Treasury.{release}
use saup.Application.OrderRules.{transition}
use saup.Application.SupplierOperations.Terms.{
  supplier_transition, intervention, resolve_reviews, active_item, intent_of,
}

abbrev pub is_none : {A : Type 0} → Option A → Bool
is_none none = true
is_none (some a) = false

-- `payment.status in {"SENDING", "UNKNOWN", "SUCCEEDED"}`
abbrev pub is_exposed : PaymentStatus → Bool
is_exposed PaymentStatus.sending = true
is_exposed PaymentStatus.unknown = true
is_exposed PaymentStatus.succeeded = true
is_exposed _ = false

abbrev pub was_sent : Option Batch → Bool
was_sent none = false
was_sent (some b) = not (is_none b.sent_at)

abbrev is_rejected : AckStatus → Bool
is_rejected ack_rejected = true
is_rejected _ = false

-- `item and item.ack_status == "REJECTED" and so.status == "REJECTED"`
abbrev explicitly_rejected : Option BatchItem → SupplierOrder → Bool
explicitly_rejected none so = false
explicitly_rejected (some item) so =
    is_rejected item.ack_status && SupplierState.same so.status SupplierState.rejected

abbrev pub find_proof : Option Payment → Db → Option Proof
find_proof none db = none
find_proof (some p) db = find? (λ (r : Proof). r.payment_id == p.id) db.proofs

abbrev pub money_exposed : Option Proof → Option Payment → Bool
money_exposed (some proof) payment = true
money_exposed none none = false
money_exposed none (some p) = is_exposed p.status

-- The order's states that no request changes.
abbrev keeps_state : OrderState → Bool
keeps_state OrderState.cancel_requested = true
keeps_state OrderState.cancelled = true
keeps_state OrderState.closed = true
keeps_state OrderState.settled = true
keeps_state OrderState.settlement_pending = true
keeps_state _ = false

abbrev is_person : Who → Bool
is_person Who.marketplace = false
is_person Who.system = false
is_person _ = true

abbrev surviving : SupplierState → Bool
surviving SupplierState.file_ready = true
surviving SupplierState.exported = true
surviving _ = false

abbrev pub is_line : ℕ → ℕ → BatchItem → Bool
is_line batch_id so_id r = r.batch_id == batch_id && r.supplier_order_id == so_id

-- A file that was not sent is invalidated with all its lines; the other lines may be batched again.
unfoldable pub invalidate_batch : ℕ → ℕ → Who → M (Unit {0})
invalidate_batch so_id batch_id actor = do
  update_batch batch_id (λ b. record b { status = BatchStatus.invalidated })
  items ← gets (λ db. db.batch_items)
  for_each items (λ item. when (item.batch_id == batch_id) (do
    update_lines (is_line batch_id item.supplier_order_id) (λ r. record r { active = false })
    row ← gets (find_supplier_order item.supplier_order_id)
    on_some row (raise (domain supplier_resource_not_found 404)) (λ other.
        when (not (other.id == so_id) && surviving other.status)
          (supplier_transition other.id SupplierState.pending actor))))
  audit supplier_batch_invalidated batch_id actor

unfoldable pub withdraw_payment : Option Payment → M (Unit {0})
withdraw_payment none = pure tt
withdraw_payment (some p) = update_payment p.id (λ p. record p { status = PaymentStatus.cancelled })

abbrev confirm_request : Env → ℕ → Who → M (Unit {0})
confirm_request env so_id actor = modify (λ db. record db {
  cancellations =
      map
        (λ (r : Cancellation).
          if r.supplier_order_id == so_id
          then record r {
            status = confirmed_local;
            confirmed_by = some actor;
            confirmed_at = some env.now;
          }
          else r)
        db.cancellations;
})

-- Nothing was sent and nothing paid: the order ends here.
unfoldable pub cancel_locally : Env → ℕ → ℕ → Option Payment → Who → M (Unit {0})
cancel_locally env order_id so_id payment actor = do
  withdraw_payment payment
  supplier_transition so_id SupplierState.cancelled actor
  order ← fetch (find_order order_id)
  release order true
  after ← fetch (find_order order_id)
  when (OrderState.same after.state OrderState.cancel_requested)
      (transition order_id OrderState.cancelled)
  confirm_request env so_id actor
  resolve_reviews order_id (supplier_file_ack_required ∷ by_code supplier_order_rejected ∷ []) actor
  resolve_reviews so_id (by_code supplier_order_rejected ∷ []) actor
  audit supplier_cancellation_confirmed so_id actor

abbrev settled_request : SupplierState → Bool
settled_request SupplierState.cancel_pending = true
settled_request SupplierState.cancelled = true
settled_request _ = false

-- The supplier has to confirm; money that may have moved is a person's matter.
unfoldable pub await_supplier : Env → ℕ → Option Payment → Option Batch → Bool → Who → M (Unit {0})
await_supplier env so_id payment batch exposed actor = do
  when (not exposed) (withdraw_payment payment)
  so ← fetch (find_supplier_order so_id)
  when (not (settled_request so.status))
      (supplier_transition so_id SupplierState.cancel_pending actor)
  on_some batch (pure tt)
      (λ b. update_batch b.id (λ r. record r { status = BatchStatus.cancel_pending }))
  review env supplier_cancellation_required so_id
  when exposed (review env supplier_cancellation_financial_review so_id)

-- The batch of an item that is active.
unfoldable pub batch_of : Option BatchItem → M (Option Batch)
batch_of none = pure none
batch_of (some item) = do
  row ← gets (find_batch item.batch_id)
  on_some row (raise (domain supplier_resource_not_found 404)) (λ b. pure (some b))

unfoldable pub request_cancellation : Env → ℕ → Who → M (Unit {0})
request_cancellation env so_id actor = do
  so ← fetch (find_supplier_order so_id)
  prior ← gets (λ db. find? (λ (r : Cancellation). r.supplier_order_id == so_id) db.cancellations)
  on_some prior
      (do
        order ← fetch (find_order so.order_id)
        item ← gets (active_item so_id)
        batch ← batch_of item
        frozen ← gets (intent_of so_id)
        payment ← gets (λ db. find? (λ (p : Payment). p.supplier_order_id == so_id) db.payments)
        proof ← gets (find_proof payment)
        let exposed = money_exposed proof payment
        modify (λ db. record db {
          cancellations =
              record {
                supplier_order_id = so_id;
                status = request_pending;
                from_state = so.status;
                requested_by = actor;
                confirmation_hash = none;
                confirmed_by = none;
                confirmed_at = none;
                reference = none;
              }
              ∷ db.cancellations;
        })
        update_order order.id (λ o. record o { cancel_requested = true })
        when (not (keeps_state order.state)) (transition order.id OrderState.cancel_requested)
        audit supplier_cancellation_requested so_id actor
        when (is_person actor) (intervention (cancel_request so_id) actor (some order.id))
        when (not (was_sent batch))
            (on_some batch (pure tt) (λ b. invalidate_batch so_id b.id actor))
        if (not (was_sent batch) || explicitly_rejected item so)
              && (not exposed && not (is_none frozen))
            then cancel_locally env order.id so_id payment actor
            else await_supplier env so_id payment batch exposed actor)
      (λ _. pure tt)
