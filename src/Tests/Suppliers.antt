-- ===== src/Tests/Suppliers.antt =====
-- The life of a supplier order.
use saup.Base.{◌≡◌, refl, true}
use saup.Domain.Errors.{ok}
use saup.Domain.SupplierState.{
  pending, batched, paid, shipment_pending, validate_supplier_transition, is_allowed,
}
use saup.Domain.SupplierState.Graph.{
  new, change, unpayable, after_payment, unacknowledged_order, paid_order_stays,
}

batched_lem : validate_supplier_transition pending batched ≡ ok tt
unfolding validate_supplier_transition is_allowed
batched_lem = refl

unacknowledged_order_example : unpayable batched ≡ true
unacknowledged_order_example = unacknowledged_order (change new batched_lem (λ e. cc))

shipping_lem : validate_supplier_transition paid shipment_pending ≡ ok tt
unfolding validate_supplier_transition is_allowed
shipping_lem = refl

paid_order_stays_example :
    (after_payment shipment_pending ≡ true) × (shipment_pending ≡ paid → paid ≡ paid)
paid_order_stays_example = paid_order_stays paid shipment_pending shipping_lem refl
