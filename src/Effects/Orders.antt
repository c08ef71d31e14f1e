-- ===== src/Effects/Orders.antt =====
-- Orders, payments and shipments.
use saup.Base.{ℕ, Bool, Option, none, some}
use saup.Domain.Errors.{Code, Error, Result, ok, err, domain, integration, validation, unexpected}
use saup.Store.Db.{Db, Env}
use saup.Store.Rows.{Who, Payment, PaymentStatus, SupplierOrder, Supplier, Order}
use saup.Store.CaseRows.{Batch}
use saup.Store.Monad.Keeps.{Keeps}
use saup.Application.Commerce.Intake.{OrderInput}
use saup.Application.Commerce.Payments.{Answer}
use saup.Application.Commerce.Shipping.{ShipmentRow}
use saup.Effects.{
  Effects, effect_rules, lock_treasury-keeps, enqueue-keeps, review-keeps, context-keeps,
  pause_listing-keeps, transition-keeps, insert_order-keeps, insert_payment-keeps, post-keeps,
  settle_payment-keeps,
}
use saup.Effects.Finance.{reserve-keeps, release-keeps}
use saup.Effects.Suppliers.{
  supplier_transition-keeps, freeze_intent-keeps, validate_order-keeps, validate_payable-keeps,
  payment_completed-keeps, withdraw_payment-keeps, request_cancellation-keeps,
}
use saup.Application.Books.Gains.{sale-Gains}
use saup.Application.Commerce.Intake.{
  store_order, ingest, hold, accept_order, refuse_order, validate_received,
}
use saup.Application.Commerce.Payments.{
  announce, create_payment, pay_to, block_payment, prepare_payment, payable_batch, check_dispatch,
  mark_unknown, finalize_payment, after_call, conclude,
}
use saup.Application.Commerce.Cancel.{
  drop_supplier_order, stop_order, cancel_direct, cancel, confirm_supplier_cancel,
}
use saup.Application.Commerce.Shipping.{
  ship_excel, new_shipment, check_supplier, add_shipment, shipment_synced, delivered,
}

module _ {P : Db → Type 0} ⦃effects : Effects P⦄ where
  pub store_order-keeps : (env : Env) (v : OrderInput) (b : Bool) → Keeps P (store_order env v b)
  unfolding store_order
  store_order-keeps env v b =
      search (effect_rules, enqueue-keeps, review-keeps, transition-keeps, insert_order-keeps) depth
        24

  pub ingest-keeps : (env : Env) (v : OrderInput) (b : Bool) → Keeps P (ingest env v b)
  unfolding ingest
  ingest-keeps env v b = search (effect_rules, store_order-keeps) depth 24

  pub hold-keeps : (env : Env) (i : ℕ) (v : Code) → Keeps P (hold env i v)
  unfolding hold
  hold-keeps env i v = search (effect_rules, review-keeps, transition-keeps) depth 24

  pub accept_order-keeps : (env : Env) (i : ℕ) → Keeps P (accept_order env i)
  unfolding accept_order
  accept_order-keeps env i =
      search
        (
          effect_rules, enqueue-keeps, review-keeps, transition-keeps, reserve-keeps,
          freeze_intent-keeps, validate_order-keeps,
        )
        depth 24

  pub refuse_order-keeps :
      (env : Env) (i : ℕ) (i_2 : ℕ) (e : Error) → Keeps P (refuse_order env i i_2 e)
  unfolding refuse_order
  refuse_order-keeps env i i_2 (domain code status) =
      search (effect_rules, pause_listing-keeps, hold-keeps) depth 24
  refuse_order-keeps env i i_2 (integration code retryable uncertain) =
      search (effect_rules, pause_listing-keeps, hold-keeps) depth 24
  refuse_order-keeps env i i_2 validation = search (effect_rules, hold-keeps) depth 24
  refuse_order-keeps env i i_2 unexpected = search (effect_rules) depth 24

  pub validate_received-keeps : (env : Env) (i : ℕ) → Keeps P (validate_received env i)
  unfolding validate_received
  validate_received-keeps env i =
      search (effect_rules, transition-keeps, accept_order-keeps, refuse_order-keeps) depth 24

  pub announce-keeps :
      (env : Env) (i : ℕ) (i_2 : ℕ) (v : PaymentStatus) → Keeps P (announce env i i_2 v)
  unfolding announce
  announce-keeps env i i_2 PaymentStatus.pending = search (effect_rules, enqueue-keeps) depth 24
  announce-keeps env i i_2 PaymentStatus.evidence_pending = search (effect_rules) depth 24
  announce-keeps env i i_2 PaymentStatus.manual_approval =
      search (effect_rules, review-keeps) depth 24
  announce-keeps env i i_2 PaymentStatus.sending = search (effect_rules) depth 24
  announce-keeps env i i_2 PaymentStatus.unknown = search (effect_rules) depth 24
  announce-keeps env i i_2 PaymentStatus.succeeded = search (effect_rules) depth 24
  announce-keeps env i i_2 PaymentStatus.cancelled = search (effect_rules) depth 24

  pub create_payment-keeps :
      (env : Env) (i : ℕ) (so : SupplierOrder) (i_2 : ℕ) (v : Option Batch)
      → Keeps P (create_payment env i so i_2 v)
  unfolding create_payment
  create_payment-keeps env i so i_2 v =
      search (effect_rules, insert_payment-keeps, supplier_transition-keeps, announce-keeps) depth
        24

  pub pay_to-keeps :
      (env : Env) (i : ℕ) (so : SupplierOrder) (x : Supplier) (v : Option Batch)
      → Keeps P (pay_to env i so x v)
  unfolding pay_to
  pay_to-keeps env i so x v = search (effect_rules, hold-keeps, create_payment-keeps) depth 24

  pub block_payment-keeps :
      (env : Env) (i : ℕ) (i_2 : ℕ) (e : Error) → Keeps P (block_payment env i i_2 e)
  unfolding block_payment
  block_payment-keeps env i i_2 e =
      search (effect_rules, review-keeps, supplier_transition-keeps, hold-keeps) depth 24

  pub prepare_payment-keeps : (env : Env) (i : ℕ) (i_2 : ℕ) → Keeps P (prepare_payment env i i_2)
  unfolding prepare_payment
  prepare_payment-keeps env i i_2 =
      search
        (
          effect_rules, lock_treasury-keeps, context-keeps, validate_payable-keeps, pay_to-keeps,
          block_payment-keeps,
        )
        depth 24

  pub payable_batch-keeps : (env : Env) (i : ℕ) (i_2 : ℕ) → Keeps P (payable_batch env i i_2)
  unfolding payable_batch
  payable_batch-keeps env i i_2 =
      search (effect_rules, context-keeps, validate_payable-keeps) depth 24

  pub check_dispatch-keeps : (env : Env) (p : Payment) → Keeps P (check_dispatch env p)
  unfolding check_dispatch
  check_dispatch-keeps env p =
      search (effect_rules, validate_order-keeps, validate_payable-keeps) depth 24

  pub mark_unknown-keeps : (env : Env) (i : ℕ) → Keeps P (mark_unknown env i)
  unfolding mark_unknown
  mark_unknown-keeps env i = search (effect_rules, lock_treasury-keeps, review-keeps) depth 24

  pub finalize_payment-keeps : (env : Env) (i : ℕ) (i_2 : ℕ) → Keeps P (finalize_payment env i i_2)
  unfolding finalize_payment
  finalize_payment-keeps env i i_2 =
      search
        (
          effect_rules, lock_treasury-keeps, review-keeps, transition-keeps, settle_payment-keeps,
          payment_completed-keeps,
        )
        depth 24

  pub after_call-keeps : (env : Env) (i : ℕ) (v : Result ℕ) → Keeps P (after_call env i v)
  unfolding after_call
  after_call-keeps env i (ok a) = search (effect_rules, finalize_payment-keeps) depth 24
  after_call-keeps env i (err (domain code status)) = search (effect_rules) depth 24
  after_call-keeps env i (err (integration code retryable uncertain)) =
      search (effect_rules, mark_unknown-keeps) depth 24
  after_call-keeps env i (err validation) = search (effect_rules) depth 24
  after_call-keeps env i (err unexpected) = search (effect_rules) depth 24

  pub conclude-keeps : (env : Env) (i : ℕ) (v : Answer) → Keeps P (conclude env i v)
  unfolding conclude
  conclude-keeps env i (Answer.found r) = search (effect_rules, finalize_payment-keeps) depth 24
  conclude-keeps env i Answer.not_found =
      search (effect_rules, lock_treasury-keeps, review-keeps) depth 24

  pub drop_supplier_order-keeps : (v : Option SupplierOrder) → Keeps P (drop_supplier_order v)
  unfolding drop_supplier_order
  drop_supplier_order-keeps none = search (effect_rules) depth 24
  drop_supplier_order-keeps (some a) = search (effect_rules) depth 24

  pub stop_order-keeps :
      (env : Env) (i : ℕ) (v : Option SupplierOrder) → Keeps P (stop_order env i v)
  unfolding stop_order
  stop_order-keeps env i v =
      search
        (
          effect_rules, enqueue-keeps, review-keeps, transition-keeps, release-keeps,
          drop_supplier_order-keeps,
        )
        depth 24

  pub cancel_direct-keeps :
      (env : Env) (i : ℕ) (o : Order) (actor : Who) → Keeps P (cancel_direct env i o actor)
  unfolding cancel_direct
  cancel_direct-keeps env i o actor =
      search
        (effect_rules, review-keeps, transition-keeps, withdraw_payment-keeps, stop_order-keeps)
        depth 24

  pub cancel-keeps : (env : Env) (i : ℕ) (actor : Who) → Keeps P (cancel env i actor)
  unfolding cancel
  cancel-keeps env i actor =
      search
        (
          effect_rules, lock_treasury-keeps, context-keeps, request_cancellation-keeps,
          cancel_direct-keeps,
        )
        depth 24

  pub confirm_supplier_cancel-keeps : (env : Env) (i : ℕ) → Keeps P (confirm_supplier_cancel env i)
  unfolding confirm_supplier_cancel
  confirm_supplier_cancel-keeps env i =
      search (effect_rules, lock_treasury-keeps, review-keeps, transition-keeps, release-keeps)
        depth 24

  pub ship_excel-keeps : (so : SupplierOrder) → Keeps P (ship_excel so)
  unfolding ship_excel
  ship_excel-keeps so = search (effect_rules, supplier_transition-keeps) depth 24

  pub new_shipment-keeps :
      (env : Env) (o : Order) (so : SupplierOrder) (v : ShipmentRow)
      → Keeps P (new_shipment env o so v)
  unfolding new_shipment
  new_shipment-keeps env o so v =
      search (effect_rules, enqueue-keeps, context-keeps, transition-keeps, ship_excel-keeps) depth
        24

  pub check_supplier-keeps : (o : Order) (v : Option ℕ) → Keeps P (check_supplier o v)
  unfolding check_supplier
  check_supplier-keeps o none = search (effect_rules) depth 24
  check_supplier-keeps o (some a) = search (effect_rules, context-keeps) depth 24

  pub add_shipment-keeps :
      (env : Env) (v : ShipmentRow) (v_2 : Option ℕ) → Keeps P (add_shipment env v v_2)
  unfolding add_shipment
  add_shipment-keeps env v v_2 =
      search (effect_rules, lock_treasury-keeps, new_shipment-keeps, check_supplier-keeps) depth 24

  pub shipment_synced-keeps : (i : ℕ) → Keeps P (shipment_synced i)
  unfolding shipment_synced
  shipment_synced-keeps i = search (effect_rules, lock_treasury-keeps) depth 24

  pub delivered-keeps : (env : Env) (i : ℕ) → Keeps P (delivered env i)
  unfolding delivered
  delivered-keeps env i =
      search (effect_rules, lock_treasury-keeps, transition-keeps, post-keeps, sale-Gains) depth 24
