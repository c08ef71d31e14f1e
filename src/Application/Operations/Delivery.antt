-- ===== src/Application/Operations/Delivery.antt =====
-- `confirm_shipment` and `delivered` of packages/application/operations.py.
use saup.Base.{ℕ, Bool, false, not, ◌&&◌, ◌||◌, ◌==◌, Option, some, none, find?, any}
use saup.Domain.Errors.{
  conflict, domain, shipment_not_found, order_not_found, shipment_identity_mismatch,
  order_not_shipped, cancel_requested, external_shipment_confirmation_required,
}
use saup.Domain.OperatorCommands.{Evidence, ShipmentConfirmation}
use saup.Domain.OrderState.{OrderState, same}
use saup.Domain.SupplierState.{Actor, require, operator}
use saup.Store.Db.{Db, Env}
use saup.Store.Keys.{
  shipment_externally_confirmed, delivery_confirmed, on_row, shipment_of, delivery_of,
  tracking_document, shipment_document, delivery_document,
}
use saup.Store.Rows.{Order, Shipment}
use saup.Store.Monad.{M, pure, raise, gets, lift, on_some, raise_when, ◌>>=◌, ◌>>◌}
use saup.Store.Tables.{find_order}
use saup.Application.Common.{lock_treasury}
use saup.Application.Commerce.Shipping
use saup.Application.Operations.{is_receipt, receipt}

-- `get(s, Order, ...)`
unfoldable pub get_order : ℕ → M Order
get_order i = do
  row ← gets (find_order i)
  on_some row (raise (domain order_not_found 404)) (λ o. pure o)

unfoldable pub get_shipment : ℕ → M Shipment
get_shipment i = do
  row ← gets (λ db. find? (λ (x : Shipment). x.id == i) db.shipments)
  on_some row (raise (domain shipment_not_found 404)) (λ x. pure x)

abbrev is_same_line : Env → ShipmentConfirmation → Shipment → Order → Bool
is_same_line env cmd x o =
    cmd.marketplace == o.marketplace
    && cmd.external_order_id == o.external_id
    && cmd.external_line_id == o.external_line_id
    && cmd.tracking_hash == env.fingerprint (tracking_document x.courier x.tracking)

-- The provider's own flag, `marketplace_synced`, is left as it is.
unfoldable pub check_shipment : Env → ShipmentConfirmation → Shipment → Order → M (Unit {0})
check_shipment env cmd x o = do
  raise_when (not (is_same_line env cmd x o)) (conflict shipment_identity_mismatch)
  raise_when (o.cancel_requested || not (same o.state OrderState.shipped))
      (conflict order_not_shipped)

unfoldable pub confirm_shipment : Env → ℕ → ShipmentConfirmation → Actor → M ℕ
confirm_shipment env shipment_id cmd actor = do
  lift (require actor operator)
  lock_treasury
  x ← get_shipment shipment_id
  o ← get_order x.order_id
  receipt env shipment_externally_confirmed (on_row x.id) (shipment_of o.marketplace) cmd.evidence
      (shipment_document cmd) actor (check_shipment env cmd x o)

abbrev is_confirmed : Option Shipment → Db → Bool
is_confirmed none db = false
is_confirmed (some x) db = any (is_receipt shipment_externally_confirmed (on_row x.id)) db.receipts

unfoldable pub deliver_confirmed : Env → Order → M (Unit {0})
deliver_confirmed env o = do
  shipment ← gets (λ db. find? (λ (x : Shipment). x.order_id == o.id) db.shipments)
  shown ← gets (is_confirmed shipment)
  raise_when (not shown) (conflict external_shipment_confirmation_required)
  raise_when o.cancel_requested (conflict cancel_requested)
  Shipping.delivered env o.id

unfoldable pub confirm_delivery : Env → ℕ → Evidence → Actor → M ℕ
confirm_delivery env order_id cmd actor = do
  lift (require actor operator)
  lock_treasury
  o ← get_order order_id
  receipt env delivery_confirmed (on_row o.id) (delivery_of o.marketplace) cmd
      (delivery_document cmd) actor (deliver_confirmed env o)
