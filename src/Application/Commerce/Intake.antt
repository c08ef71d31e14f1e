-- ===== src/Application/Commerce/Intake.antt =====
-- `ingest_in_session`, `hold`, `validate_received_in_session` and `process_order` of commerce.py.
use saup.Base.{
  ℕ, ◌+◌, Bool, true, false, not, ◌&&◌, ◌||◌, ◌==◌, ltb, Option, some, none, ◌∷◌, find?, any,
  if◌then◌else◌,
}
use saup.Domain.Errors.{
  Code, Error, domain, conflict, integration, validation, unexpected, address_error,
  order_identity_payload_conflict, invalid_listing, order_not_validatable,
  order_already_has_business_effects, order_hold, insufficient_cash, margin_below_threshold,
  stale_inventory, out_of_stock,
}
use saup.Domain.OrderState.{OrderState}
use saup.Domain.SupplierState.{SupplierState}
use saup.Store.Db.{Db, Env}
use saup.Store.Keys.{
  by_code, line_after_cancellation, supplier_file_ack_required, order_process, order_job,
  supplier_submit, supplier_job, by_id,
}
use saup.Store.Rows.{
  system, Order, SupplierOrder, Mode, excel, AuditEvent, Event, order_received, order_held,
  order_imported_from_file,
}
use saup.Store.CaseRows.{RefundEvidence}
use saup.Store.Monad.{
  M, pure, raise, gets, modify, fresh, catch, on_some, when, raise_when, ◌>>=◌, ◌>>◌,
}
use saup.Store.Tables.{
  fetch, find_order, find_listing, supplier_order_of, reservation_of, payment_of, update_order,
}
use saup.Application.Common.{audit, review, enqueue}
use saup.Application.Finance.Treasury.{reserve}
use saup.Application.OrderRules.{transition, pause_listing}
use saup.Application.SupplierOperations.Terms.{freeze_intent, validate_order}

-- A validated `OrderInput`; `input_hash` is its fingerprint and `ciphertext` its encrypted address.
pub record OrderInput : Type 0 where
  pub marketplace : ℕ
  pub external_id : ℕ
  pub external_line_id : ℕ
  pub listing_id : ℕ
  pub quantity : ℕ
  pub gross_sale : ℕ
  pub discount : ℕ
  pub input_hash : ℕ
  pub ciphertext : ℕ

abbrev pub is_line : OrderInput → Order → Bool
is_line input o =
    o.marketplace == input.marketplace
    && o.external_id == input.external_id
    && o.external_line_id == input.external_line_id

abbrev new_order : Env → OrderInput → ℕ → Order
new_order env input i = record {
  id = i;
  marketplace = input.marketplace;
  external_id = input.external_id;
  external_line_id = input.external_line_id;
  listing_id = input.listing_id;
  quantity = input.quantity;
  gross_sale = input.gross_sale;
  discount = input.discount;
  fee = 0;
  promotion_cost = 0;
  cost_snapshot = 0;
  state = OrderState.received;
  cancel_requested = false;
  pii_ciphertext = input.ciphertext;
  input_hash = input.input_hash;
  hold_until = env.now + env.order_hold_seconds;
  delivered_at = none;
  human_interventions = 0;
}

unfoldable pub insert_order : Env → OrderInput → M ℕ
insert_order env input = do
  i ← fresh
  modify (λ db. record db { orders = new_order env input i ∷ db.orders })
  pure i

-- A new line: stored, and queued unless its marketplace order has been cancelled with a refund.
unfoldable pub store_order : Env → OrderInput → Bool → M ℕ
store_order env input enqueue_processing = do
  row ← gets (find_listing input.listing_id)
  on_some row (raise (domain invalid_listing 422)) (λ listing. do
    raise_when (not (listing.marketplace == input.marketplace)) (domain invalid_listing 422)
    i ← insert_order env input
    audit order_received i system
    cancelled ← gets (λ db.
        find?
          (λ (r : RefundEvidence).
            r.marketplace == input.marketplace && r.external_order_id == input.external_id)
          db.refund_evidence)
    on_some cancelled
        (when enqueue_processing
          (enqueue env order_process (order_job i) (by_id i) (env.now + env.order_hold_seconds)))
        (λ _. do transition i OrderState.manual_review; review env line_after_cancellation i)
    pure i)

-- The identifier of the order, and whether it was there before.
unfoldable pub ingest : Env → OrderInput → Bool → M (ℕ × Bool)
ingest env input enqueue_processing = do
  existing ← gets (λ db. find? (is_line input) db.orders)
  on_some existing (do i ← store_order env input enqueue_processing; pure (i, false))
      (λ o. do
        raise_when (not (o.input_hash == input.input_hash))
            (conflict order_identity_payload_conflict)
        pure (o.id, true))

-- `order.state in {"MANUAL_REVIEW", "CANCEL_REQUESTED", "CANCELLED", "CLOSED"}`
abbrev pub is_held_back : OrderState → Bool
is_held_back OrderState.manual_review = true
is_held_back OrderState.cancel_requested = true
is_held_back OrderState.cancelled = true
is_held_back OrderState.closed = true
is_held_back _ = false

unfoldable pub hold : Env → ℕ → Code → M (Unit {0})
hold env i code = do
  order ← fetch (find_order i)
  when (not (is_held_back order.state)) (transition i OrderState.manual_review)
  review env (by_code code) i
  audit order_held i system

-- The codes that also pause the listing.
abbrev pauses : Code → Bool
pauses insufficient_cash = true
pauses margin_below_threshold = true
pauses stale_inventory = true
pauses out_of_stock = true
pauses _ = false

abbrev pub has_row : {A : Type 0} → Option A → Bool
has_row none = false
has_row (some a) = true

abbrev pub is_excel : Mode → Bool
is_excel excel = true
is_excel _ = false

abbrev validatable : OrderState → Bool
validatable OrderState.received = true
validatable OrderState.manual_review = true
validatable _ = false

-- The block in `begin_nested()`: the checks, the reservation and the supplier order, or nothing.
unfoldable pub accept_order : Env → ℕ → M (Unit {0})
accept_order env i = do
  quote ← validate_order env i false
  transition i OrderState.validated
  transition i OrderState.risk_checked
  order ← fetch (find_order i)
  reserve env order quote.at.sp quote.cost
  update_order i (λ o. record o {
    cost_snapshot = quote.cost;
    fee = quote.result.fee;
    promotion_cost = quote.at.listing.promotion_cost;
  })
  transition i OrderState.payment_reserved
  so_id ← fresh
  let so : SupplierOrder = record {
    id = so_id;
    order_id = i;
    external_id = none;
    status = SupplierState.pending;
    amount = quote.cost;
  }
  modify (λ db. record db { supplier_orders = so ∷ db.supplier_orders })
  transition i OrderState.supplier_order_pending
  if is_excel quote.at.supplier.mode
      then freeze_intent env i so >> review env supplier_file_ack_required i
      else enqueue env supplier_submit (supplier_job i) (by_id so_id) env.now

-- The `except` clauses; an exception of another kind goes on.
unfoldable pub refuse_order : Env → ℕ → ℕ → Error → M (Unit {0})
refuse_order env i listing_id validation = hold env i address_error
refuse_order env i listing_id unexpected = raise unexpected
refuse_order env i listing_id (integration code retryable uncertain) = do
  hold env i code
  when (pauses code) (pause_listing env listing_id)
refuse_order env i listing_id (domain code status) = do
  hold env i code
  when (pauses code) (pause_listing env listing_id)

unfoldable pub validate_received : Env → ℕ → M (Unit {0})
validate_received env i = do
  order ← fetch (find_order i)
  raise_when (not (validatable order.state) || order.cancel_requested)
      (conflict order_not_validatable)
  so ← gets (supplier_order_of i)
  held ← gets (reservation_of i)
  paid ← gets (payment_of i)
  raise_when (has_row so || has_row held || has_row paid)
      (conflict order_already_has_business_effects)
  raise_when (ltb env.now order.hold_until) (integration order_hold true false)
  transition i OrderState.validating
  catch (accept_order env i) (refuse_order env i order.listing_id)

abbrev is_import : ℕ → AuditEvent → Bool
is_import i a = a.entity_id == i && is_import_event a.event
  where
    is_import_event : Event → Bool
    is_import_event order_imported_from_file = true
    is_import_event _ = false

unfoldable pub was_imported : ℕ → Db → Bool
was_imported i db = any (is_import i) db.audits
