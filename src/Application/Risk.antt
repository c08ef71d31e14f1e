-- ===== src/Application/Risk.antt =====
-- `guard_cash_and_claims` of packages/application/risk.py: the active listings of a supplier's product are
-- paused when there is no cash for one more order, or when the delivered orders of the window brought
-- too many claims or losses.
use saup.Base.{
  ℕ, ◌+◌, ◌-◌, ◌*◌, Bool, true, false, not, ◌&&◌, ◌||◌, ◌==◌, ltb, leb, Option, some, none, List,
  [], ◌∷◌, any, filter, map, length, if◌then◌else◌, pos,
}
use saup.Store.Db.{Env}
use saup.Store.Keys.{claim_rate_warning, claim_loss_kill_switch}
use saup.Store.Rows.{Listing, active, paused, SupplierProduct, Order}
use saup.Store.CaseRows.{Claim}
use saup.Store.Monad.{M, pure, gets, lift, when, for_each, ◌>>=◌, ◌>>◌}
use saup.Application.Common.{review}
use saup.Application.Finance.Treasury.{capacity}
use saup.Application.OrderRules.{pause_listing}

abbrev sum_by : {A : Type 0} → (A → ℕ) → List A → ℕ
sum_by f [] = 0
sum_by f (x ∷ xs) = f x + sum_by f xs

-- `set(...)`
abbrev distinct : List ℕ → List ℕ
distinct [] = []
distinct (x ∷ xs) = let rest = distinct xs in if any (λ y. y == x) rest then rest else x ∷ rest

abbrev is_live : Listing → Bool
is_live listing = elim listing.desired_state [ active ↦ true | paused ↦ false ]

abbrev is_empty : {A : Type 0} → List A → Bool
is_empty [] = true
is_empty (x ∷ xs) = false

-- `Order.delivered_at >= since`, where `since` is the window before now.
abbrev delivered_since : Env → Option ℕ → Bool
delivered_since env none = false
delivered_since env (some t) = leb env.now (t + env.claim_window)

unfoldable pub cohort : Env → List Listing → List Order → List Order
cohort env listings orders =
    filter
      (λ (o : Order).
        any (λ (l : Listing). l.id == o.listing_id) listings && delivered_since env o.delivered_at)
      orders

unfoldable pub claims_on : List Order → List Claim → List Claim
claims_on orders claims =
    filter (λ (c : Claim). any (λ (o : Order). o.id == c.order_id) orders) claims

-- `part / whole >= rate`, the rate in millionths; a rate of a whole of 0 is 0.
abbrev reaches : ℕ → ℕ → ℕ → Bool
reaches rate part whole = if whole == 0 then rate == 0 else leb (rate * whole) (part * 1000000)

abbrev claimed_orders : List Claim → ℕ
claimed_orders claims = length (distinct (map (λ (c : Claim). c.order_id) claims))

-- The subtractions stop at 0: as `max(0, ...)` here, and as `discount <= gross_sale` holds there.
abbrev losses : List Claim → ℕ
losses claims = sum_by (λ (c : Claim). c.customer_refund - c.supplier_recovery) claims

abbrev revenue : List Order → ℕ
revenue orders = sum_by (λ (o : Order). o.gross_sale - o.discount) orders

-- The rates of a cohort that is large enough; whether the kill switch is on.
unfoldable pub judge_claims : Env → ℕ → List Order → List Claim → M Bool
judge_claims env sp_id orders claims = do
  when (reaches env.claim_warning_rate (claimed_orders claims) (length orders))
      (review env claim_rate_warning sp_id)
  let killed =
      reaches env.claim_pause_rate (claimed_orders claims) (length orders)
      || reaches env.seller_loss_pause_rate (losses claims) (revenue orders)
  when killed (review env claim_loss_kill_switch sp_id)
  pure killed

unfoldable pub guard_product : Env → SupplierProduct → M (Unit {0})
guard_product env sp = do
  listings ← gets (λ db. filter (λ (l : Listing). l.supplier_product_id == sp.id) db.listings)
  when (not (is_empty (filter is_live listings))) (do
    room ← gets (capacity env sp.supplier_id (pos (sp.cost + sp.shipping)))
    orders_left ← lift room
    orders ← gets (λ db. cohort env listings db.orders)
    claims ← gets (λ db. claims_on orders db.claims)
    killed ←
        if leb env.claim_min_samples (length orders)
        then judge_claims env sp.id orders claims
        else pure false
    when (killed || ltb orders_left 1)
        (for_each (filter is_live listings) (λ listing. pause_listing env listing.id)))

-- The number of listings that were paused is left out: no caller reads it.
unfoldable pub guard_cash_and_claims : Env → M (Unit {0})
guard_cash_and_claims env = do
  rows ← gets (λ db. db.supplier_products)
  for_each rows (guard_product env)
