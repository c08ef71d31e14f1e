-- ===== src/Application/SupplierOperations/Cancel.antt =====
-- `cancel_order`, `cancel_batch` and `confirm_cancellation` of
-- packages/application/supplier_operations.py: the commands of a person around a cancellation.
use saup.Base.{ℕ, Bool, true, false, not, ◌==◌, Option, some, [], ◌∷◌, find?, update, if◌then◌else◌}
use saup.Domain.Errors.{
  conflict, domain, supplier_resource_not_found, supplier_cancel_confirmation_not_required,
  supplier_cancellation_conflict, batch_already_resolved, batch_superseded,
}
use saup.Domain.OrderState.{OrderState}
use saup.Domain.OrderState
use saup.Domain.SupplierState.{SupplierState, Actor, require, operator, admin}
use saup.Store.Db.{Env}
use saup.Store.Keys.{
  confirmation_document, supplier_cancellation_financial_review, supplier_cancellation_required,
  supplier_file_ack_required,
}
use saup.Store.Rows.{user, Payment, SupplierOrder, supplier_cancellation_confirmed}
use saup.Store.CaseRows.{
  BatchItem, BatchStatus, Cancellation, CancellationStatus, confirmed, confirmed_local,
  financial_review, cancel_confirmed,
}
use saup.Store.Monad.{
  M, pure, raise, gets, lift, modify, on_some, when, raise_when, for_each, ◌>>=◌, ◌>>◌,
}
use saup.Store.Tables.{fetch, find_order, find_supplier_order, find_batch, update_batch}
use saup.Application.Common.{audit, review, lock_treasury}
use saup.Application.Finance.Treasury.{release}
use saup.Application.OrderRules.{transition}
use saup.Application.SupplierOperations.Terms.{
  supplier_transition, intervention, resolve_reviews, active_item,
}
use saup.Application.SupplierOperations.Request.{
  is_none, find_proof, money_exposed, withdraw_payment, request_cancellation,
}

-- `self.get`, for a supplier order.
unfoldable pub present_order : ℕ → M SupplierOrder
present_order so_id = do
  row ← gets (find_supplier_order so_id)
  on_some row (raise (domain supplier_resource_not_found 404)) (λ so. pure so)

unfoldable pub cancel_order : Env → ℕ → Actor → M (Unit {0})
cancel_order env so_id actor = do
  lift (require actor operator)
  lock_treasury
  so ← present_order so_id
  request_cancellation env so.id (user actor.name)

abbrev is_resolved_batch : BatchStatus → Bool
is_resolved_batch BatchStatus.batch_resolved = true
is_resolved_batch _ = false

-- No line of the batch has moved on to another.
unfoldable pub check_line : ℕ → BatchItem → M (Unit {0})
check_line batch_id item = do
  current ← gets (active_item item.supplier_order_id)
  on_some current (pure tt)
      (λ i. raise_when (not (i.batch_id == batch_id)) (conflict batch_superseded))

unfoldable pub cancel_line : Env → Actor → BatchItem → M (Unit {0})
cancel_line env actor item = do
  so ← present_order item.supplier_order_id
  request_cancellation env so.id (user actor.name)

unfoldable pub cancel_batch : Env → ℕ → Actor → M (Unit {0})
cancel_batch env batch_id actor = do
  lift (require actor operator)
  lock_treasury
  row ← gets (find_batch batch_id)
  on_some row (raise (domain supplier_resource_not_found 404)) (λ batch. do
    raise_when (is_resolved_batch batch.status) (conflict batch_already_resolved)
    items ← gets (λ db. db.batch_items)
    for_each items (λ item. when (item.batch_id == batch_id) (check_line batch_id item))
    for_each items (λ item. when (item.batch_id == batch_id) (cancel_line env actor item))
    when (is_none batch.sent_at)
        (update_batch batch_id (λ b. record b { status = BatchStatus.cancelled })))

-- A request that ended at once needs no confirmation.
abbrev awaits_nobody : CancellationStatus → Bool
awaits_nobody confirmed_local = true
awaits_nobody _ = false

abbrev confirm_request : ℕ → ℕ → Bool → ℕ → ℕ → Cancellation → Cancellation
confirm_request hashed reference exposed actor at r = record r {
  confirmation_hash = some hashed;
  reference = some reference;
  confirmed_by = some (user actor);
  confirmed_at = some at;
  status = if exposed then financial_review else confirmed;
}

-- No money moved: the payment is withdrawn, the reservation released, and the order ends.
unfoldable pub end_order : ℕ → Option Payment → M (Unit {0})
end_order order_id payment = do
  withdraw_payment payment
  order ← fetch (find_order order_id)
  release order false
  after ← fetch (find_order order_id)
  when (OrderState.same after.state OrderState.cancel_requested)
      (transition order_id OrderState.cancelled)

-- The first confirmation of a request.
unfoldable pub confirm_request_once : Env → SupplierOrder → ℕ → ℕ → Actor → M (Unit {0})
confirm_request_once env so reference hashed actor = do
  row ← gets (find_order so.order_id)
  on_some row (raise (domain supplier_resource_not_found 404)) (λ order. do
    payment ← gets (λ db. find? (λ (p : Payment). p.supplier_order_id == so.id) db.payments)
    proof ← gets (find_proof payment)
    let exposed = money_exposed proof payment
    modify (λ db. record db {
      cancellations =
          update (λ (r : Cancellation). r.supplier_order_id == so.id)
            (confirm_request hashed reference exposed actor.name env.now) db.cancellations;
    })
    supplier_transition so.id SupplierState.cancelled (user actor.name)
    when (not exposed) (end_order order.id payment)
    when exposed (review env supplier_cancellation_financial_review so.id)
    resolve_reviews so.id (supplier_cancellation_required ∷ []) (user actor.name)
    resolve_reviews order.id (supplier_file_ack_required ∷ []) (user actor.name)
    audit supplier_cancellation_confirmed so.id (user actor.name)
    intervention (cancel_confirmed so.id) (user actor.name) (some order.id))

-- The command holds the reference; its other field is the constant True.
unfoldable pub confirm_cancellation : Env → ℕ → ℕ → Actor → M (Unit {0})
confirm_cancellation env so_id reference actor = do
  lift (require actor admin)
  lock_treasury
  so ← present_order so_id
  prior ← gets (λ db. find? (λ (r : Cancellation). r.supplier_order_id == so.id) db.cancellations)
  on_some prior (raise (conflict supplier_cancel_confirmation_not_required)) (λ request. do
    raise_when (awaits_nobody request.status) (conflict supplier_cancel_confirmation_not_required)
    let hashed = env.fingerprint (confirmation_document reference)
    on_some request.confirmation_hash (confirm_request_once env so reference hashed actor)
        (λ h. raise_when (not (h == hashed)) (conflict supplier_cancellation_conflict)))
