-- ===== src/Application/Commerce/Submit.antt =====
-- `process_order` and `submit_supplier` of packages/application/commerce.py. Whether the marketplace
-- says that the order is cancelled, and the supplier's receipt or exception, are arguments.
use saup.Base.{ℕ, Bool, true, false, not, some, none, if◌then◌else◌}
use saup.Domain.OrderState.{OrderState}
use saup.Domain.OrderState
use saup.Domain.SupplierState.{SupplierState}
use saup.Domain.Errors.{Result, ok, err, domain, order_not_found}
use saup.Store.Db.{Db, Env}
use saup.Store.Keys.{supplier_cancel, cancel_job, by_id}
use saup.Store.Rows.{Who, system, Order, SupplierOrder, supplier_order_created}
use saup.Store.Monad.{M, pure, raise, gets, catch, on_some, when, commit, ◌>>=◌, ◌>>◌}
use saup.Store.Tables.{fetch, find_order, find_supplier_order, update_supplier_order}
use saup.Application.Common.{audit, enqueue, lock_treasury}
use saup.Application.OrderRules.{transition, context}
use saup.Application.SupplierOperations.Terms.{validate_order}
use saup.Application.Commerce.Intake.{hold, validate_received, was_imported, is_excel}
use saup.Application.Commerce.Cancel.{cancel}
use saup.Application.Commerce.Payments.{handled, prepare_payment}

-- The order is new, and was not imported from a file.
unfoldable pub is_processable : ℕ → M Bool
is_processable i = do
  row ← gets (find_order i)
  on_some row (raise (domain order_not_found 404)) (λ order.
      if OrderState.same order.state OrderState.received
      then (gets (was_imported i) >>= λ imported. pure (not imported))
      else pure false)

unfoldable pub process_received : Env → ℕ → M (Unit {0})
process_received env i = do
  lock_treasury
  order ← fetch (find_order i)
  when (OrderState.same order.state OrderState.received) (validate_received env i)

unfoldable pub process_order : Env → ℕ → Bool → Db → Result (Unit {0}) × Db
process_order env i is_cancelled db = elim (is_processable i db) [
  | err e ↦ (err e, db)
  | ok (false, same) ↦ (ok tt, db)
  | ok (true, same) ↦
      commit (if is_cancelled then cancel env i Who.marketplace else process_received env i) db
]

abbrev is_submitted : SupplierState → Bool
is_submitted SupplierState.accepted = true
is_submitted SupplierState.cancelled = true
is_submitted SupplierState.file_ready = true
is_submitted _ = false

-- The order is checked again before the supplier is called.
unfoldable pub check_submit : Env → SupplierOrder → Order → M Bool
check_submit env so order = do
  refused ← catch (validate_order env order.id true >> pure none) (λ e. pure (some e))
  on_some refused
      (do update_supplier_order so.id (λ r. record r { status = SupplierState.sending }); pure true)
      (λ e. on_some (handled e) (raise e) (λ code. do hold env order.id code; pure false))

-- The first transaction: whether the supplier is to be called.
unfoldable pub start_submit : Env → ℕ → M Bool
start_submit env so_id = do
  lock_treasury
  so ← fetch (find_supplier_order so_id)
  order ← fetch (find_order so.order_id)
  c ← context order
  if is_excel c.supplier.mode
      then pure false
      else if is_submitted so.status
      then pure false
      else if order.cancel_requested
      then (do enqueue env supplier_cancel (cancel_job so_id) (by_id so_id) env.now; pure false)
      else check_submit env so order

-- The second, with the supplier's receipt. The state is assigned and passes no table of changes.
unfoldable pub accept_submit : Env → ℕ → ℕ → M (Unit {0})
accept_submit env so_id reference = do
  lock_treasury
  so ← fetch (find_supplier_order so_id)
  order ← fetch (find_order so.order_id)
  update_supplier_order so_id
      (λ r. record r { status = SupplierState.accepted; external_id = some reference })
  audit supplier_order_created order.id system
  if order.cancel_requested
      then enqueue env supplier_cancel (cancel_job so_id) (by_id so_id) env.now
      else transition order.id OrderState.supplier_ordered >> prepare_payment env order.id so_id

unfoldable pub order_submitted_by : ℕ → M ℕ
order_submitted_by so_id = do
  so ← fetch (find_supplier_order so_id)
  order ← fetch (find_order so.order_id)
  pure order.id

-- An exception of the supplier leaves the supplier order as it is; the job may be run again.
unfoldable pub submit_supplier : Env → ℕ → Bool → Result ℕ → Db → Result (Unit {0}) × Db
submit_supplier env so_id is_cancelled receipt db = elim (order_submitted_by so_id db) [
  | err e ↦ (err e, db)
  | ok (order_id, same) ↦
      if is_cancelled
      then commit (cancel env order_id Who.marketplace) db
      else (let (called, mid) = commit (start_submit env so_id) db in
          elim called [
            | err e ↦ (err e, mid)
            | ok false ↦ (ok tt, mid)
            | ok true ↦ elim receipt [
              | err e ↦ (err e, mid)
              | ok reference ↦ commit (accept_submit env so_id reference) mid
            ]
          ])
]
