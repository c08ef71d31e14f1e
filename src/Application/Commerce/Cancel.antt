-- ===== src/Application/Commerce/Cancel.antt =====
-- `cancel` and `cancel_supplier` of commerce.py.
use saup.Base.{ℕ, ◌+◌, Bool, true, false, not, ◌||◌, Option, some, none, if◌then◌else◌}
use saup.Domain.Errors.{domain, order_not_found}
use saup.Domain.OrderState.{OrderState}
use saup.Domain.OrderState
use saup.Domain.SupplierState.{SupplierState}
use saup.Store.Db.{Env}
use saup.Store.Keys.{
  cancellation_after_payment, late_cancellation, cancellation_after_supplier_order, supplier_cancel,
  cancel_job, by_id,
}
use saup.Store.Rows.{
  Who, Order, Payment, SupplierOrder, cancellation_requested, supplier_cancellation_confirmed,
  system,
}
use saup.Store.Monad.{M, pure, raise, gets, on_some, when, ◌>>=◌, ◌>>◌}
use saup.Store.Tables.{
  fetch, find_order, find_supplier_order, supplier_order_of, payment_of, update_order,
  update_supplier_order,
}
use saup.Application.Common.{audit, review, enqueue, lock_treasury}
use saup.Application.Finance.Treasury.{release}
use saup.Application.OrderRules.{transition, context}
use saup.Application.SupplierOperations.Request.{is_exposed, withdraw_payment, request_cancellation}
use saup.Application.Commerce.Intake.{is_excel}

-- `order.state in {"SETTLED", "CLOSED", "SETTLEMENT_PENDING"}`
abbrev pub is_settling : OrderState → Bool
is_settling OrderState.settled = true
is_settling OrderState.closed = true
is_settling OrderState.settlement_pending = true
is_settling _ = false

abbrev at_supplier : Option SupplierOrder → Bool
at_supplier none = false
at_supplier (some so) = elim so.status [
  | SupplierState.sending ↦ true
  | SupplierState.accepted ↦ true
  | _ ↦ false
]

abbrev pub paid_out : Option Payment → Bool
paid_out none = false
paid_out (some p) = is_exposed p.status

abbrev by_market : Who → Bool
by_market Who.marketplace = true
by_market _ = false

-- `so.status = "CANCELLED"`, an assignment that passes no table of changes.
unfoldable pub drop_supplier_order : Option SupplierOrder → M (Unit {0})
drop_supplier_order none = pure tt
drop_supplier_order (some so) =
    update_supplier_order so.id (λ r. record r { status = SupplierState.cancelled })

-- The order may still be stopped: at the supplier, or at once.
unfoldable pub stop_order : Env → ℕ → Option SupplierOrder → M (Unit {0})
stop_order env i so = do
  transition i OrderState.cancel_requested
  if at_supplier so
      then (do
        on_some so (pure tt)
            (λ r. enqueue env supplier_cancel (cancel_job r.id) (by_id r.id) env.now)
        review env cancellation_after_supplier_order i)
      else (do
        drop_supplier_order so
        order ← fetch (find_order i)
        release order true
        transition i OrderState.cancelled)

unfoldable pub cancel_direct : Env → ℕ → Order → Who → M (Unit {0})
cancel_direct env i order actor = do
  update_order i (λ o. record o { cancel_requested = true })
  when (not (by_market actor))
      (update_order i (λ o. record o { human_interventions = o.human_interventions + 1 }))
  audit cancellation_requested i actor
  so ← gets (supplier_order_of i)
  payment ← gets (payment_of i)
  if paid_out payment
      then (do
        when (not (is_settling order.state)) (transition i OrderState.cancel_requested)
        review env cancellation_after_payment i)
      else (do
        withdraw_payment payment
        if is_settling order.state then review env late_cancellation i else stop_order env i so)

unfoldable pub cancel : Env → ℕ → Who → M (Unit {0})
cancel env i actor = do
  lock_treasury
  row ← gets (find_order i)
  on_some row (raise (domain order_not_found 404)) (λ order.
      if OrderState.same order.state OrderState.cancelled || order.cancel_requested
      then pure tt
      else do
        so ← gets (supplier_order_of i)
        on_some so (cancel_direct env i order actor) (λ r. do
          c ← context order
          if is_excel c.supplier.mode
              then request_cancellation env r.id actor
              else cancel_direct env i order actor))

-- The second transaction of `cancel_supplier`, after the provider's receipt.
unfoldable pub confirm_supplier_cancel : Env → ℕ → M (Unit {0})
confirm_supplier_cancel env so_id = do
  lock_treasury
  so ← fetch (find_supplier_order so_id)
  order ← fetch (find_order so.order_id)
  payment ← gets (payment_of order.id)
  if paid_out payment then review env cancellation_after_payment order.id else (do
    update_supplier_order so_id (λ r. record r { status = SupplierState.cancelled })
    release order true
    transition order.id OrderState.cancelled
    audit supplier_cancellation_confirmed order.id system)
