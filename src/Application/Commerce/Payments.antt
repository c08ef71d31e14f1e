-- ===== src/Application/Commerce/Payments.antt =====
-- `prepare_payment`, `approve_payment`, `execute_payment`, `finalize_payment`, `reconcile_payment`
-- and `submit_supplier` of commerce.py.
use saup.Base.{
  ℕ, ◌+◌, Bool, true, false, not, ◌&&◌, ◌||◌, ◌==◌, ltb, Option, some, none, [], ◌∷◌, if◌then◌else◌,
}
use saup.Domain.Errors.{
  Code, Error, Result, ok, err, domain, conflict, integration, validation, unexpected,
  address_error, payment_not_found, approval_snapshot_mismatch, payment_not_awaiting_approval,
  cancel_requested, daily_payment_limit, destination_changed, order_not_payable,
  manual_payment_cannot_dispatch, payment_not_provider_confirmable,
  manual_payment_cannot_use_provider_receipt, payment_not_reconcilable, destination_not_whitelisted,
}
use saup.Domain.OrderState.{OrderState}
use saup.Domain.OrderState
use saup.Domain.SupplierState.{SupplierState}
use saup.Store.Db.{Db, Env, AppMode, production}
use saup.Store.Keys.{
  supplier_payment_preparation_blocked, payment_approval, payment_result_unknown,
  payment_not_found_reverify_required, cancellation_after_payment, payment_execute, payment_job,
  by_id,
}
use saup.Store.Rows.{
  Who, system, Payment, PaymentStatus, provider, Supplier, SupplierOrder, supplier_payment_prepared,
  payment_approved,
}
use saup.Domain.SupplierCommands.{PaymentPath, manual_evidence, demo_provider}
use saup.Store.CaseRows.{Batch, InterventionKey}
use saup.Store.Monad.{
  M, pure, raise, gets, modify, fresh, catch, on_some, when, raise_when, commit, ◌>>=◌, ◌>>◌,
}
use saup.Store.Tables.{
  fetch, find_order, find_payment, find_supplier_order, find_batch, payment_of, update_payment,
}
use saup.Application.Common.{audit, review, enqueue, lock_treasury}
use saup.Application.Finance.Treasury.{daily_commitments, settle_payment, is_succeeded}
use saup.Application.OrderRules.{transition, context}
use saup.Application.SupplierOperations.Terms.{
  supplier_transition, intervention, resolve_reviews, active_item, validate_order, validate_payable,
  payment_completed,
}
use saup.Application.SupplierOperations.Request.{is_exposed}
use saup.Application.Commerce.Cancel.{cancel}
use saup.Application.Commerce.Intake.{hold, is_excel}

-- The code of an exception that the handlers name, `ADDRESS_ERROR` for a `ValidationError`.
abbrev pub handled : Error → Option Code
handled (domain code status) = some code
handled (integration code retryable uncertain) = some code
handled validation = some address_error
handled unexpected = none

abbrev pub is_manual : PaymentPath → Bool
is_manual manual_evidence = true
is_manual demo_provider = false

abbrev waits_for_evidence : Option Batch → Bool
waits_for_evidence none = false
waits_for_evidence (some b) = is_manual b.payment_path

-- `status` of a payment that the limits allow.
abbrev ready_status : Option Batch → PaymentStatus
ready_status batch =
    if waits_for_evidence batch then PaymentStatus.evidence_pending else PaymentStatus.pending

-- The payment's status: a person approves it where it passes a limit.
abbrev first_status : Env → ℕ → Option Batch → Db → PaymentStatus
first_status env amount batch db =
    if ltb env.auto_payment_limit amount
      || ltb env.daily_payment_limit (daily_commitments none env.now db + amount)
    then PaymentStatus.manual_approval
    else ready_status batch

unfoldable pub announce : Env → ℕ → ℕ → PaymentStatus → M (Unit {0})
announce env order_id i PaymentStatus.manual_approval = review env payment_approval i
announce env order_id i PaymentStatus.pending =
    enqueue env payment_execute (payment_job order_id) (by_id i) env.now
announce env order_id i _ = pure tt

-- A payment of 0 breaks a constraint of the table.
unfoldable pub insert_payment : ℕ → ℕ → ℕ → ℕ → PaymentStatus → M ℕ
insert_payment order_id so_id amount destination status = do
  i ← fresh
  raise_when (amount == 0) unexpected
  modify (λ db. record db {
    payments =
        record {
          id = i;
          order_id = order_id;
          supplier_order_id = so_id;
          amount = amount;
          destination_fingerprint = destination;
          status = status;
          approved_by = none;
          provider_reference = none;
          dispatched_at = none;
        }
        ∷ db.payments;
  })
  pure i

unfoldable pub create_payment : Env → ℕ → SupplierOrder → ℕ → Option Batch → M (Unit {0})
create_payment env order_id so destination batch = do
  status ← gets (first_status env so.amount batch)
  i ← insert_payment order_id so.id so.amount destination status
  on_some batch (pure tt) (λ _.
      supplier_transition so.id SupplierState.payment_pending system
      >> audit supplier_payment_prepared i system)
  announce env order_id i status

-- The approved destination, if there is one.
abbrev destination_of : Supplier → Option ℕ
destination_of s = if s.destination_approved then s.destination_fingerprint else none

unfoldable pub pay_to : Env → ℕ → SupplierOrder → Supplier → Option Batch → M (Unit {0})
pay_to env order_id so supplier batch =
    on_some (destination_of supplier) (hold env order_id destination_not_whitelisted)
      (λ destination. create_payment env order_id so destination batch)

-- The supplier's terms do not allow a payment: the order is held, and no payment is made.
unfoldable pub block_payment : Env → ℕ → ℕ → Error → M (Option Batch)
block_payment env order_id so_id e = on_some (handled e) (raise e) (λ code. do
  hold env order_id code
  supplier_transition so_id SupplierState.manual_review system
  review env supplier_payment_preparation_blocked so_id
  pure none)

unfoldable pub prepare_payment : Env → ℕ → ℕ → M (Unit {0})
prepare_payment env order_id so_id = do
  lock_treasury
  existing ← gets (payment_of order_id)
  on_some existing
      (do
        order ← fetch (find_order order_id)
        so ← fetch (find_supplier_order so_id)
        c ← context order
        if is_excel c.supplier.mode
            then (do
              batch ←
                  catch (validate_payable env order_id so_id >>= λ b. pure (some b))
                    (block_payment env order_id so_id)
              on_some batch (pure tt) (λ b. pay_to env order_id so c.supplier (some b)))
            else pay_to env order_id so c.supplier none)
      (λ _. pure tt)

-- `p.status in {"PENDING", "EVIDENCE_PENDING", "SENDING", "UNKNOWN", "SUCCEEDED"}`
abbrev is_released : PaymentStatus → Bool
is_released PaymentStatus.manual_approval = false
is_released PaymentStatus.cancelled = false
is_released _ = true

abbrev pub is_approved : Option Who → Bool
is_approved none = false
is_approved (some who) = true

abbrev awaits_approval : PaymentStatus → Bool
awaits_approval PaymentStatus.manual_approval = true
awaits_approval _ = false

-- The supplier order's batch, whose terms are checked once more.
unfoldable pub payable_batch : Env → ℕ → ℕ → M (Option Batch)
payable_batch env order_id so_id = do
  order ← fetch (find_order order_id)
  c ← context order
  if is_excel c.supplier.mode
      then (validate_payable env order_id so_id >>= λ b. pure (some b))
      else pure none

unfoldable pub release_payment : Env → Payment → Who → M (Unit {0})
release_payment env p actor = do
  raise_when (not (awaits_approval p.status)) (conflict payment_not_awaiting_approval)
  order ← fetch (find_order p.order_id)
  raise_when order.cancel_requested (conflict cancel_requested)
  others ← gets (daily_commitments (some p.id) env.now)
  raise_when (ltb env.daily_payment_limit (others + p.amount)) (conflict daily_payment_limit)
  batch ← payable_batch env p.order_id p.supplier_order_id
  update_payment p.id (λ r. record r { approved_by = some actor; status = ready_status batch })
  intervention (InterventionKey.payment_approved p.id) actor (some p.order_id)
  audit payment_approved p.id actor
  resolve_reviews p.id (payment_approval ∷ []) actor
  when (not (waits_for_evidence batch))
      (enqueue env payment_execute (payment_job p.order_id) (by_id p.id) env.now)

unfoldable pub approve_payment : Env → ℕ → ℕ → ℕ → Who → M (Unit {0})
approve_payment env payment_id amount destination actor = do
  lock_treasury
  row ← gets (find_payment payment_id)
  on_some row (raise (domain payment_not_found 404)) (λ p. do
    raise_when (not (p.amount == amount) || not (p.destination_fingerprint == destination))
        (conflict approval_snapshot_mismatch)
    if is_approved p.approved_by && is_released p.status
        then pure tt
        else release_payment env p actor)

abbrev is_demo : AppMode → Bool
is_demo production = false
is_demo _ = true

abbrev goes_to : Option ℕ → ℕ → Bool
goes_to none destination = false
goes_to (some d) destination = d == destination

-- The checks before money is sent; they change nothing.
unfoldable pub check_dispatch : Env → Payment → M (Unit {0})
check_dispatch env p = do
  quote ← validate_order env p.order_id true
  let supplier = quote.at.supplier
  raise_when
      (not supplier.destination_approved
        || not (goes_to supplier.destination_fingerprint p.destination_fingerprint))
      (conflict destination_changed)
  order ← fetch (find_order p.order_id)
  raise_when (not (OrderState.same order.state OrderState.supplier_ordered))
      (conflict order_not_payable)
  when (is_excel supplier.mode) (do
    batch ← validate_payable env p.order_id p.supplier_order_id
    raise_when (is_manual batch.payment_path || not (is_demo env.app_mode))
        (conflict manual_payment_cannot_dispatch))

-- Whether the provider is to be called.
unfoldable pub send_payment : Env → Payment → M Bool
send_payment env p = do
  others ← gets (daily_commitments (some p.id) env.now)
  if ltb env.daily_payment_limit (others + p.amount)
      then (do
        update_payment p.id (λ r. record r { status = PaymentStatus.manual_approval })
        review env payment_approval p.id
        pure false)
      else (do
        update_payment p.id
            (λ r. record r { status = PaymentStatus.sending; dispatched_at = some env.now })
        pure true)

unfoldable pub refuse_payment : Env → Payment → Error → M Bool
refuse_payment env p e = on_some (handled e) (raise e) (λ code. do
  update_payment p.id (λ r. record r { status = PaymentStatus.manual_approval })
  hold env p.order_id code
  pure false)

unfoldable pub dispatch_by : PaymentStatus → Env → Payment → M Bool
dispatch_by PaymentStatus.sending env p = do
  update_payment p.id (λ r. record r { status = PaymentStatus.unknown })
  review env payment_result_unknown p.id
  pure false
dispatch_by PaymentStatus.pending env p = do
  order ← fetch (find_order p.order_id)
  if order.cancel_requested
      then (do update_payment p.id (λ r. record r { status = PaymentStatus.cancelled }); pure false)
      else (do
        refused ← catch (check_dispatch env p >> pure none) (λ e. pure (some e))
        on_some refused (send_payment env p) (refuse_payment env p))
dispatch_by _ env p = pure false

-- The first transaction of `execute_payment`: whether the provider is to be called.
unfoldable pub dispatch : Env → ℕ → M Bool
dispatch env payment_id = do
  lock_treasury
  p ← fetch (find_payment payment_id)
  dispatch_by p.status env p

unfoldable pub finalize_payment : Env → ℕ → ℕ → M (Unit {0})
finalize_payment env payment_id reference = do
  lock_treasury
  p ← fetch (find_payment payment_id)
  order ← fetch (find_order p.order_id)
  if is_succeeded p.status then pure tt else (do
    raise_when (not (is_exposed p.status)) (conflict payment_not_provider_confirmable)
    found ← gets (active_item p.supplier_order_id)
    on_some found (pure tt) (λ item. do
      batch ← fetch (find_batch item.batch_id)
      raise_when (is_manual batch.payment_path)
          (conflict manual_payment_cannot_use_provider_receipt))
    settle_payment env p (provider reference)
    payment_completed env p
    if order.cancel_requested
        then review env cancellation_after_payment order.id
        else transition order.id OrderState.supplier_paid
          >> transition order.id OrderState.shipment_pending)

-- The provider's exception leaves the payment's result open; it is never sent again.
unfoldable pub mark_unknown : Env → ℕ → M (Unit {0})
mark_unknown env payment_id = do
  lock_treasury
  update_payment payment_id (λ r. record r { status = PaymentStatus.unknown })
  review env payment_result_unknown payment_id

-- The provider's receipt, or its exception.
unfoldable pub after_call : Env → ℕ → Result ℕ → M (Unit {0})
after_call env payment_id (ok reference) = finalize_payment env payment_id reference
after_call env payment_id (err (integration code retryable uncertain)) = mark_unknown env payment_id
after_call env payment_id (err e) = raise e

-- Both transactions, once the marketplace has said that the order is open.
unfoldable pub execute_open : Env → ℕ → Result ℕ → Db → Result (Unit {0}) × Db
execute_open env payment_id receipt db =
    let (sent, mid) = commit (dispatch env payment_id) db in
    elim sent [
      | err e ↦ (err e, mid)
      | ok false ↦ (ok tt, mid)
      | ok true ↦ commit (after_call env payment_id receipt) mid
    ]

-- The order whose status the marketplace is asked for.
unfoldable pub order_paid_by : ℕ → M ℕ
order_paid_by payment_id = do
  p ← fetch (find_payment payment_id)
  order ← fetch (find_order p.order_id)
  pure order.id

-- The marketplace's answer, whether the order is cancelled, and the provider's receipt or exception are
-- arguments.
unfoldable pub execute_payment : Env → ℕ → Bool → Result ℕ → Db → Result (Unit {0}) × Db
execute_payment env payment_id is_cancelled receipt db = elim (order_paid_by payment_id db) [
  | err e ↦ (err e, db)
  | ok (order_id, same) ↦
      if is_cancelled
      then commit (cancel env order_id Who.marketplace) db
      else execute_open env payment_id receipt db
]

-- What the provider knows of a payment's key.
pub data Answer : Type 0 where
  found : ℕ → Answer
  not_found : Answer

unfoldable pub conclude : Env → ℕ → Answer → M (Unit {0})
conclude env payment_id (found reference) = finalize_payment env payment_id reference
conclude env payment_id not_found =
    lock_treasury >> review env payment_not_found_reverify_required payment_id

unfoldable pub check_reconcilable : ℕ → M (Unit {0})
check_reconcilable payment_id = do
  p ← fetch (find_payment payment_id)
  raise_when (not (is_exposed p.status)) (conflict payment_not_reconcilable)

-- The session that checks the payment ends before the provider is asked, and what it says is written in
-- a transaction of its own: `meanwhile` is what others wrote in between.
unfoldable pub reconcile_payment : Env → ℕ → Answer → (Db → Db) → Db → Result (Unit {0}) × Db
reconcile_payment env payment_id answer meanwhile db = elim (check_reconcilable payment_id db) [
  | err e ↦ (err e, db)
  | ok _ ↦ commit (conclude env payment_id answer) (meanwhile db)
]
