-- ===== src/Domain/SupplierState/Graph.antt =====
-- What every walk along the table of supplier order states satisfies.
use saup.Base.{◌≡◌, refl, ◌≢◌, Bool, true, false, arith}
use saup.Domain.Errors.{ok}
use saup.Domain.SupplierState.{
  SupplierState, pending, acknowledged, payment_pending, paid, shipment_pending, shipped,
  cancel_pending, cancelled, validate_supplier_transition, is_allowed,
}

-- The changes that the table accepted, from PENDING on, none to the state `avoided`.
pub data History (avoided : SupplierState) : SupplierState → Type 0 where
  new : History avoided pending
  change :
      {s t : SupplierState}
      → History avoided s
      → validate_supplier_transition s t ≡ ok tt
      → t ≢ avoided
      → History avoided t

-- The states other than ACKNOWLEDGED and those that follow it up to the shipment.
abbrev pub unpayable : SupplierState → Bool
unpayable payment_pending = false
unpayable paid = false
unpayable shipment_pending = false
unpayable shipped = false
unpayable acknowledged = false
unpayable _ = true

unpayable_change :
    (s t : SupplierState)
    → validate_supplier_transition s t ≡ ok tt
    → t ≢ acknowledged
    → unpayable s ≡ true
    → unpayable t ≡ true
unfolding validate_supplier_transition is_allowed
unpayable_change pending pending e ne h = refl
unpayable_change _ _ e ne h = ground arith

-- Along the changes that the table accepts, from PENDING on, a supplier order reaches none of the states
-- PAYMENT_PENDING, PAID, SHIPMENT_PENDING and SHIPPED without ACKNOWLEDGED before. The table is that of
-- the file orders: the orders of an adapter get SENDING and ACCEPTED by assignment, outside it.
pub unacknowledged_order : {t : SupplierState} → History acknowledged t → unpayable t ≡ true
unacknowledged_order new = refl
unacknowledged_order (change {s = s} {t = t} r e ne) =
    unpayable_change s t e ne (unacknowledged_order r)

-- The states of a paid order: those towards the shipment, and those of a cancellation.
abbrev pub after_payment : SupplierState → Bool
after_payment paid = true
after_payment shipment_pending = true
after_payment shipped = true
after_payment cancel_pending = true
after_payment cancelled = true
after_payment _ = false

-- From a state after the payment the code accepts only changes to such states, and a change to `paid`
-- only from `paid` itself.
pub paid_order_stays :
    (s t : SupplierState)
    → validate_supplier_transition s t ≡ ok tt
    → after_payment s ≡ true
    → (after_payment t ≡ true) × (t ≡ paid → s ≡ paid)
unfolding validate_supplier_transition is_allowed
paid_order_stays pending pending e h = ground arith
paid_order_stays _ _ e h = ground arith
