-- ===== src/Application/Commerce/Shipping.antt =====
-- `add_shipment`, `delivered` and the second transaction of `sync_shipment` of commerce.py.
use saup.Base.{
  ℕ, Bool, true, false, not, ◌&&◌, ◌||◌, ◌==◌, Option, some, none, [], ◌∷◌, find?, any,
  if◌then◌else◌, pos, ◌-ℤ◌, neg,
}
use saup.Domain.Errors.{
  conflict, supplier_order_not_found, shipment_order_mismatch, shipment_supplier_mismatch,
  tracking_conflict, duplicate_tracking, order_not_shippable, supplier_order_not_shippable,
}
use saup.Domain.OrderState.{OrderState}
use saup.Domain.OrderState
use saup.Domain.SupplierState.{SupplierState}
use saup.Domain.SupplierState
use saup.Store.Db.{Env}
use saup.Store.Keys.{
  marketplace_shipment, shipment_job, by_id, sale_key, sale_recognized, marketplace_receivable,
  revenue, marketplace_fees, promotion_expense,
}
use saup.Store.Rows.{Order, Payment, SupplierOrder, Shipment, marketplace_shipment_updated, system}
use saup.Store.CaseRows.{BatchItem}
use saup.Store.Monad.{M, pure, raise, gets, modify, fresh, on_some, when, raise_when, ◌>>=◌, ◌>>◌}
use saup.Store.Tables.{fetch, find_order, find_supplier_order, update_order, update_shipment}
use saup.Application.Common.{audit, enqueue, lock_treasury}
use saup.Application.Finance.Ledger.{Entries, post}
use saup.Application.Finance.Treasury.{is_succeeded}
use saup.Application.OrderRules.{transition, context}
use saup.Application.SupplierOperations.Terms.{supplier_transition, active_item, is_accepted}
use saup.Application.Commerce.Intake.{is_excel}

-- A validated `ShipmentRow`.
pub record ShipmentRow : Type 0 where
  pub supplier_order_id : ℕ
  pub marketplace_order_id : ℕ
  pub courier : ℕ
  pub tracking : ℕ

abbrev paid_item : Option BatchItem → Option Payment → Bool
paid_item (some item) (some p) = is_accepted item.ack_status && is_succeeded p.status
paid_item _ _ = false

-- A supplier with files ships only what it accepted and what was paid for.
unfoldable pub ship_excel : SupplierOrder → M (Unit {0})
ship_excel so = do
  item ← gets (active_item so.id)
  payment ← gets (λ db. find? (λ (p : Payment). p.supplier_order_id == so.id) db.payments)
  raise_when
      (not (SupplierState.same so.status SupplierState.shipment_pending)
        || not (paid_item item payment))
      (conflict supplier_order_not_shippable)
  supplier_transition so.id SupplierState.shipped system

unfoldable pub new_shipment : Env → Order → SupplierOrder → ShipmentRow → M (Unit {0})
new_shipment env order so row = do
  taken ← gets (λ db.
      any (λ (x : Shipment). x.courier == row.courier && x.tracking == row.tracking) db.shipments)
  raise_when taken (conflict duplicate_tracking)
  raise_when
      (not (OrderState.same order.state OrderState.shipment_pending) || order.cancel_requested)
      (conflict order_not_shippable)
  c ← context order
  when (is_excel c.supplier.mode) (ship_excel so)
  i ← fresh
  modify (λ db. record db {
    shipments =
        record {
          id = i;
          order_id = order.id;
          courier = row.courier;
          tracking = row.tracking;
          marketplace_synced = false;
        }
        ∷ db.shipments;
  })
  transition order.id OrderState.shipped
  enqueue env marketplace_shipment (shipment_job i) (by_id i) env.now

abbrev other_supplier : Option ℕ → ℕ → Bool
other_supplier none i = false
other_supplier (some s) i = not (i == s)

unfoldable pub check_supplier : Order → Option ℕ → M (Unit {0})
check_supplier order none = pure tt
check_supplier order (some s) = do
  c ← context order
  raise_when (not (c.supplier.id == s)) (conflict shipment_supplier_mismatch)

unfoldable pub add_shipment : Env → ShipmentRow → Option ℕ → M (Unit {0})
add_shipment env row supplier_id = do
  lock_treasury
  so_row ← gets (find_supplier_order row.supplier_order_id)
  on_some so_row (raise (conflict supplier_order_not_found)) (λ so. do
    order ← fetch (find_order so.order_id)
    raise_when (not (order.external_id == row.marketplace_order_id))
        (conflict shipment_order_mismatch)
    check_supplier order supplier_id
    existing ← gets (λ db. find? (λ (x : Shipment). x.order_id == order.id) db.shipments)
    on_some existing (new_shipment env order so row) (λ x.
        raise_when (not (x.courier == row.courier) || not (x.tracking == row.tracking))
          (conflict tracking_conflict)))

-- After the marketplace has taken the shipment.
unfoldable pub shipment_synced : ℕ → M (Unit {0})
shipment_synced i = do
  lock_treasury
  row ← fetch (λ db. find? (λ (x : Shipment). x.id == i) db.shipments)
  update_shipment i (λ x. record x { marketplace_synced = true })
  audit marketplace_shipment_updated row.order_id system

abbrev pub is_delivered : Order → Bool
is_delivered o = elim o.delivered_at [ none ↦ false | some t ↦ true ]

-- What a delivered sale brings to the ledger.
abbrev pub sale_entries : Order → Entries
sale_entries o =
    let sold = pos o.gross_sale -ℤ pos o.discount in
    (marketplace_receivable, sold -ℤ pos o.fee -ℤ pos o.promotion_cost)
    ∷ (revenue, neg sold)
    ∷ (marketplace_fees, pos o.fee)
    ∷ (promotion_expense, pos o.promotion_cost)
    ∷ []

unfoldable pub delivered : Env → ℕ → M (Unit {0})
delivered env i = do
  lock_treasury
  order ← fetch (find_order i)
  if is_delivered order then pure tt else (do
    transition i OrderState.delivered
    update_order i (λ o. record o { delivered_at = some env.now })
    post env (sale_key i) sale_recognized (sale_entries order) (some i))
