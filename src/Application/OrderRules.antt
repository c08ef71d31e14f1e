-- ===== src/Application/OrderRules.antt =====
-- packages/application/order_rules.py, and `pause_listing` of packages/application/catalog.py.
use saup.Base.{false, ℕ, ◌+◌, not}
use saup.Domain.OrderState
use saup.Domain.OrderState.{OrderState, validate_transition}
use saup.Store.Db.{Env}
use saup.Store.Keys.{listing_sync, listing_job, listing_payload}
use saup.Store.Rows.{
  Order, Listing, SupplierProduct, Supplier, Product, system, order_transition, paused, unconfirmed,
  listing_paused_event,
}
use saup.Store.Monad.{M, pure, lift, when, ◌>>=◌, ◌>>◌}
use saup.Store.Tables.{
  fetch, find_order, find_listing, find_supplier_product, find_supplier, find_product, update_order,
  update_listing,
}
use saup.Application.Common.{audit, enqueue}

-- The state is read when the change is made: the row is shared by all that hold the order.
unfoldable pub transition : ℕ → OrderState → M (Unit {0})
transition i target = do
  order ← fetch (find_order i)
  lift (validate_transition order.state target)
  when (not (OrderState.same order.state target))
      (do update_order i (λ o. record o { state = target }); audit order_transition i system)

-- What `context(s, order)` looks up.
pub record Context : Type 0 where
  pub listing : Listing
  pub sp : SupplierProduct
  pub supplier : Supplier
  pub product : Product

unfoldable pub context : Order → M Context
context order = do
  listing ← fetch (find_listing order.listing_id)
  sp ← fetch (find_supplier_product listing.supplier_product_id)
  supplier ← fetch (find_supplier sp.supplier_id)
  product ← fetch (find_product sp.product_id)
  pure (record { listing = listing; sp = sp; supplier = supplier; product = product })

unfoldable pub pause_listing : Env → ℕ → M (Unit {0})
pause_listing env i = do
  listing ← fetch (find_listing i)
  let revision = listing.sync_revision + 1
  update_listing i (λ l. record l {
    desired_state = paused;
    remote_state = unconfirmed;
    sync_revision = l.sync_revision + 1;
  })
  enqueue env listing_sync (listing_job i revision) (listing_payload i revision false listing.price)
      env.now
  audit listing_paused_event i system
