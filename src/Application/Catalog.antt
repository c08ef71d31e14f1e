-- ===== src/Application/Catalog.antt =====
-- `create_listing` and `inventory_guard` of packages/application/catalog.py.
use saup.Base.{
  ℕ, ◌+◌, Bool, true, false, not, ◌&&◌, ◌||◌, ◌==◌, ltb, Option, some, none, ◌∷◌, find?,
  if◌then◌else◌, pos,
}
use saup.Domain.Errors.{Result, err, domain, unexpected, unknown_marketplace}
use saup.Domain.Pricing.{required_price}
use saup.Store.Db.{Env}
use saup.Store.Keys.{listing_sync, listing_job, listing_payload}
use saup.Store.Rows.{Listing, DesiredState, active, paused, remote_unknown, SupplierProduct}
use saup.Store.Monad.{
  M, pure, gets, lift, modify, fresh, on_some, when, raise_when, for_each, ◌>>=◌, ◌>>◌,
}
use saup.Store.Tables.{fetch, find_supplier_product, find_product}
use saup.Application.Common.{enqueue}
use saup.Application.OrderRules.{pause_listing}

abbrev pub has_stock : Option ℕ → Bool
has_stock none = false
has_stock (some n) = not (n == 0)

abbrev is_active_state : DesiredState → Bool
is_active_state active = true
is_active_state paused = false

-- `required_price` always ends.
abbrev settled_price : Option (Result ℕ) → Result ℕ
settled_price none = err unexpected
settled_price (some r) = r

-- The listing's row, with the defaults of its other columns, and the job that tells the marketplace.
unfoldable pub add_listing : Env → SupplierProduct → ℕ → ℕ → ℕ → Bool → M ℕ
add_listing env sp marketplace fee_rate price is_live = do
  i ← fresh
  modify (λ db. record db {
    listings =
        record {
          id = i;
          supplier_product_id = sp.id;
          marketplace = marketplace;
          price = price;
          fee_rate = fee_rate;
          claim_allowance = 0;
          promotion_cost = 0;
          desired_state = if is_live then active else paused;
          remote_state = remote_unknown;
          sync_revision = 0;
        }
        ∷ db.listings;
  })
  enqueue env listing_sync (listing_job i 0) (listing_payload i 0 is_live price) env.now
  pure i

-- `known_market` is whether the marketplace is one of the three.
unfoldable pub create_listing : Env → SupplierProduct → ℕ → Bool → ℕ → Bool → M ℕ
create_listing env sp marketplace known_market fee_rate demo = do
  raise_when (not known_market) (domain unknown_marketplace 422)
  existing ← gets (λ db.
      find? (λ (l : Listing). l.supplier_product_id == sp.id && l.marketplace == marketplace)
        db.listings)
  on_some existing
      (do
        product ← fetch (find_product sp.product_id)
        price ← lift (
            settled_price (
              required_price (pos (sp.cost + sp.shipping)) (pos fee_rate) (pos env.min_margin)
                (pos 0) (pos 0) (pos 100)))
        add_listing env sp marketplace fee_rate price
            (demo && has_stock sp.stock && product.tax_known))
      (λ l. pure l.id)

unfoldable pub guard_listing : Env → Listing → M (Unit {0})
guard_listing env listing = do
  sp ← fetch (find_supplier_product listing.supplier_product_id)
  product ← fetch (find_product sp.product_id)
  when
      (not (has_stock sp.stock)
        || ltb (sp.last_inventory_at + env.inventory_max_age_seconds) env.now
        || not product.in_season)
      (pause_listing env listing.id)

-- Every active listing is looked at. The number of those that were paused is left out: no caller
-- reads it.
unfoldable pub inventory_guard : Env → M (Unit {0})
inventory_guard env = do
  listings ← gets (λ db. db.listings)
  for_each listings
      (λ listing. when (is_active_state listing.desired_state) (guard_listing env listing))
