-- ===== src/Application/SupplierOperations/Terms.antt =====
-- `supplier_transition`, `intervention`, `resolve_reviews`, `active_item`, `freeze_intent`, `intent`,
-- `validate_frozen`, `validate_payable` and `payment_completed` of supplier_operations.py.
use saup.Base.{
  ℕ, ◌+◌, ◌*◌, ◌/◌, ◌%◌, Bool, true, false, not, ◌&&◌, ◌||◌, ◌==◌, ltb, leb, Option, some, none,
  List, ◌∷◌, find?, any, update, if◌then◌else◌, pos, ◌-ℤ◌, ltb_ℤ, eqb, ℕ_discrete,
}
use saup.Domain.Errors.{
  conflict, domain, validation, unexpected, cancel_requested, supplier_inactive, listing_paused,
  tax_classification_required, out_of_season, unknown_inventory, out_of_stock, stale_inventory,
  supplier_cutoff, margin_below_threshold, reserved_cost_changed, legacy_supplier_state_unverified,
  supplier_intent_integrity_error, supplier_identity_changed, supplier_frozen_terms_changed,
  destination_not_whitelisted, destination_changed, payment_reservation_mismatch, insufficient_cash,
  supplier_ack_required, supplier_resource_not_found, supplier_order_not_payable, order_not_payable,
}
use saup.Domain.Address
use saup.Domain.Pricing.{Margin, margin, below}
use saup.Domain.OrderState.{OrderState}
use saup.Domain.OrderState
use saup.Domain.SupplierState.{SupplierState, validate_supplier_transition}
use saup.Domain.SupplierState
use saup.Store.Db.{Db, Env}
use saup.Store.Keys.{
  ReceiptKind-discrete, Target-discrete, Category, category_eq,
  supplier_cancellation_financial_review,
}
use saup.Store.Rows.{
  Who, system, Payment, SupplierOrder, DesiredState, active, paused, StockStatus, stock_unknown,
  Review, resolved, supplier_order_transition, supplier_order_intent_created, review_resolved,
}
use saup.Store.CaseRows.{
  Intent, Snapshot, Batch, BatchItem, AckStatus, ack_accepted, Intervention, InterventionKey,
}
use saup.Store.Monad.{
  M, pure, raise, gets, lift, modify, on_some, when, raise_when, for_each, ◌>>=◌, ◌>>◌,
}
use saup.Store.Tables.{
  fetch, find_order, find_supplier_order, find_batch, reservation_of, update_order,
  update_supplier_order,
}
use saup.Application.Common.{audit, review, is_resolved}
use saup.Application.Finance.Treasury.{treasury, is_held, seoul}
use saup.Application.OrderRules.{Context, context}

unfoldable pub supplier_transition : ℕ → SupplierState → Who → M (Unit {0})
supplier_transition i target actor = do
  so ← fetch (find_supplier_order i)
  lift (validate_supplier_transition so.status target)
  when (not (SupplierState.same so.status target)) (do
    update_supplier_order i (λ o. record o { status = target })
    audit supplier_order_transition i actor)

InterventionKey-discrete : Discrete InterventionKey
InterventionKey-discrete = hlevel (ℕ_discrete, ReceiptKind-discrete, Target-discrete)

unfoldable pub intervention_key_eq : InterventionKey → InterventionKey → Bool
unfolding InterventionKey-discrete ReceiptKind-discrete Target-discrete ℕ_discrete
intervention_key_eq = eqb InterventionKey-discrete

-- A manual act is counted once for its key.
unfoldable pub intervention : InterventionKey → Who → Option ℕ → M (Unit {0})
intervention key actor order_id = do
  prior ←
      gets (λ db.
        find? (λ (v : Intervention). intervention_key_eq v.business_key key) db.interventions)
  on_some prior
      (do
        modify (λ db. record db {
          interventions =
              record { business_key = key; actor = actor; order_id = order_id } ∷ db.interventions;
        })
        on_some order_id (pure tt) (λ i.
            update_order i (λ o. record o { human_interventions = o.human_interventions + 1 })))
      (λ v. pure tt)

abbrev is_among : Category → List Category → Bool
is_among c categories = any (category_eq c) categories

abbrev closes : ℕ → List Category → Review → Bool
closes entity_id categories r =
    r.entity_id == entity_id && (is_among r.category categories && not (is_resolved r.status))

-- Every open review of the categories is resolved, each with a line in the trail.
unfoldable pub resolve_reviews : ℕ → List Category → Who → M (Unit {0})
resolve_reviews entity_id categories actor = do
  rows ← gets (λ db. db.reviews)
  for_each rows (λ r. when (closes entity_id categories r) (do
    modify (λ db. record db {
      reviews =
          update (λ (q : Review). q.id == r.id)
            (λ q. record q { status = resolved; resolved_by = some actor }) db.reviews;
    })
    audit review_resolved r.id actor))

abbrev pub active_item : ℕ → Db → Option BatchItem
active_item i db =
    find? (λ (item : BatchItem). item.supplier_order_id == i && item.active) db.batch_items

abbrev pub intent_of : ℕ → Db → Option Intent
intent_of i db = find? (λ (v : Intent). v.supplier_order_id == i) db.intents

unfoldable pub freeze_intent : Env → ℕ → SupplierOrder → M (Unit {0})
freeze_intent env order_id so = do
  order ← fetch (find_order order_id)
  c ← context order
  let snapshot : Snapshot = record {
    supplier_sku = c.sp.supplier_sku;
    supplier_product_id = c.sp.id;
    unit_cost = c.sp.cost;
    shipping = c.sp.shipping;
    quantity = order.quantity;
    amount = so.amount;
    address_hash = env.address_fingerprint (env.decrypt order.pii_ciphertext);
    input_hash = order.input_hash;
    destination_fingerprint = c.supplier.destination_fingerprint;
    marketplace_order_id = order.external_id;
  }
  raise_when (so.amount == 0) unexpected
  modify (λ db. record db {
    intents =
        record {
          supplier_order_id = so.id;
          supplier_id = c.supplier.id;
          amount = so.amount;
          snapshot = snapshot;
          snapshot_hash = env.snapshot_fingerprint snapshot;
        }
        ∷ db.intents;
  })
  audit supplier_order_intent_created so.id system

unfoldable pub intent : Env → ℕ → M Intent
intent env i = do
  row ← gets (intent_of i)
  on_some row (raise (conflict legacy_supplier_state_unverified)) (λ v. do
    raise_when (not (env.snapshot_fingerprint v.snapshot == v.snapshot_hash))
        (conflict supplier_intent_integrity_error)
    pure v)

abbrev is_active : DesiredState → Bool
is_active active = true
is_active paused = false

abbrev is_unknown : StockStatus → Bool
is_unknown stock_unknown = true
is_unknown _ = false

-- `stock is None or stock_status == "UNKNOWN"`, and the stock otherwise.
abbrev no_stock : Option ℕ → Bool
no_stock none = true
no_stock (some n) = false

abbrev less_than : Option ℕ → ℕ → Bool
less_than none quantity = false
less_than (some n) quantity = ltb n quantity

-- What a valid order costs and earns.
pub record Quote : Type 0 where
  pub at : Context
  pub cost : ℕ
  pub result : Margin

-- `Commerce.validate_order` of packages/application/commerce.py, which `validate_frozen` repeats.
unfoldable pub validate_order : Env → ℕ → Bool → M Quote
validate_order env order_id already_reserved = do
  order ← fetch (find_order order_id)
  c ← context order
  raise_when (not (Address.is_valid env.unicode (env.decrypt order.pii_ciphertext))) validation
  raise_when order.cancel_requested (conflict cancel_requested)
  raise_when (not c.supplier.active) (conflict supplier_inactive)
  raise_when (not (is_active c.listing.desired_state)) (conflict listing_paused)
  raise_when (not c.product.tax_known) (conflict tax_classification_required)
  raise_when (not c.product.in_season) (conflict out_of_season)
  raise_when (no_stock c.sp.stock || is_unknown c.sp.stock_status) (conflict unknown_inventory)
  raise_when (not already_reserved && less_than c.sp.stock order.quantity) (conflict out_of_stock)
  raise_when (ltb (c.sp.last_inventory_at + env.inventory_max_age_seconds) env.now)
      (conflict stale_inventory)
  raise_when (leb c.supplier.cutoff (seoul env.now / 60 % 1440)) (conflict supplier_cutoff)
  let cost = c.sp.cost * order.quantity + c.sp.shipping
  result ← lift (
      margin (pos order.gross_sale -ℤ pos order.discount) (pos cost) (pos c.listing.fee_rate)
        (pos (c.listing.claim_allowance * order.quantity)) (pos c.listing.promotion_cost))
  raise_when (below result env.min_margin) (conflict margin_below_threshold)
  raise_when (already_reserved && not (cost == order.cost_snapshot))
      (conflict reserved_cost_changed)
  pure (record { at = c; cost = cost; result = result })

abbrev pub same_option : Option ℕ → Option ℕ → Bool
same_option none none = true
same_option (some a) (some b) = a == b
same_option _ _ = false

-- The terms that were frozen still hold, and the money is still set aside for them.
unfoldable pub validate_frozen : Env → ℕ → ℕ → M (Unit {0})
validate_frozen env order_id so_id = do
  v ← intent env so_id
  quote ← validate_order env order_id true
  order ← fetch (find_order order_id)
  so ← fetch (find_supplier_order so_id)
  let sp = quote.at.sp
  let supplier = quote.at.supplier
  let snap = v.snapshot
  raise_when (not (supplier.id == v.supplier_id) || not (sp.id == snap.supplier_product_id))
      (conflict supplier_identity_changed)
  raise_when
      (not (so.amount == v.amount)
        || not (order.cost_snapshot == v.amount)
        || not (sp.cost == snap.unit_cost)
        || not (sp.shipping == snap.shipping)
        || not (order.quantity == snap.quantity)
        || not (sp.supplier_sku == snap.supplier_sku)
        || not (order.external_id == snap.marketplace_order_id)
        || not (order.input_hash == snap.input_hash)
        || not (env.address_fingerprint (env.decrypt order.pii_ciphertext) == snap.address_hash))
      (conflict supplier_frozen_terms_changed)
  raise_when (not supplier.destination_approved || no_stock supplier.destination_fingerprint)
      (conflict destination_not_whitelisted)
  raise_when (not (same_option supplier.destination_fingerprint snap.destination_fingerprint))
      (conflict destination_changed)
  reservation ← gets (reservation_of order_id)
  on_some reservation (raise (conflict payment_reservation_mismatch)) (λ r. do
    raise_when
        (not (is_held r.status)
          || not (r.supplier_id == supplier.id)
          || not (r.bank_amount + r.deposit_amount == v.amount))
        (conflict payment_reservation_mismatch))
  position ← gets (treasury env supplier.id)
  raise_when
      (ltb_ℤ position.free_bank (pos 0)
        || ltb_ℤ position.supplier_deposit (pos position.supplier_deposit_committed))
      (conflict insufficient_cash)

abbrev pub is_accepted : AckStatus → Bool
is_accepted ack_accepted = true
is_accepted _ = false

abbrev payable_status : SupplierState → Bool
payable_status SupplierState.acknowledged = true
payable_status SupplierState.payment_pending = true
payable_status _ = false

unfoldable pub validate_payable : Env → ℕ → ℕ → M Batch
validate_payable env order_id so_id = do
  so ← fetch (find_supplier_order so_id)
  found ← gets (active_item so_id)
  on_some found (raise (conflict supplier_ack_required)) (λ item. do
    raise_when
        (not (is_accepted item.ack_status)
          || not (same_option item.accepted_amount (some so.amount)))
        (conflict supplier_ack_required)
    row ← gets (find_batch item.batch_id)
    on_some row (raise (domain supplier_resource_not_found 404)) (λ batch. do
      raise_when (no_stock batch.sent_at || no_stock batch.acknowledged_at)
          (conflict supplier_ack_required)
      raise_when (not (payable_status so.status)) (conflict supplier_order_not_payable)
      order ← fetch (find_order order_id)
      raise_when (not (OrderState.same order.state OrderState.supplier_ordered))
          (conflict order_not_payable)
      validate_frozen env order_id so_id
      pure batch))

unfoldable pub payment_completed : Env → Payment → M (Unit {0})
payment_completed env payment = do
  row ← gets (find_supplier_order payment.supplier_order_id)
  on_some row (raise (domain supplier_resource_not_found 404)) (λ so. do
    item ← gets (active_item so.id)
    on_some item (pure tt) (λ _. do
      order ← fetch (find_order so.order_id)
      if order.cancel_requested || SupplierState.same so.status SupplierState.cancel_pending
          then review env supplier_cancellation_financial_review so.id
          else supplier_transition so.id SupplierState.paid system
            >> supplier_transition so.id SupplierState.shipment_pending system))
