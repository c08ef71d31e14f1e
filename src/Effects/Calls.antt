-- ===== src/Effects/Calls.antt =====
-- The transactions round the calls of a supplier and a marketplace, and the guards.
use saup.Base.{ℕ, Bool, List}
use saup.Store.Db.{Db, Env}
use saup.Store.Rows.{SupplierOrder, Order, Listing, SupplierProduct}
use saup.Store.CaseRows.{Claim}
use saup.Store.Monad.Keeps.{Keeps}
use saup.Effects.{
  Effects, effect_rules, lock_treasury-keeps, enqueue-keeps, review-keeps, context-keeps,
  pause_listing-keeps, transition-keeps,
}
use saup.Effects.Suppliers.{validate_order-keeps}
use saup.Effects.Orders.{hold-keeps, validate_received-keeps, prepare_payment-keeps}
use saup.Application.Catalog.{add_listing, create_listing, guard_listing, inventory_guard}
use saup.Application.Commerce.Submit.{process_received, check_submit, start_submit, accept_submit}
use saup.Application.Commerce.Sync.{listing_failed, listing_confirmed}
use saup.Application.Risk.{judge_claims, guard_product, guard_cash_and_claims}

module _ {P : Db → Type 0} ⦃effects : Effects P⦄ where
  pub add_listing-keeps :
      (env : Env) (v : SupplierProduct) (i : ℕ) (i_2 : ℕ) (i_3 : ℕ) (b : Bool)
      → Keeps P (add_listing env v i i_2 i_3 b)
  unfolding add_listing
  add_listing-keeps env v i i_2 i_3 b = search (effect_rules, enqueue-keeps) depth 24

  pub create_listing-keeps :
      (env : Env) (v : SupplierProduct) (i : ℕ) (b : Bool) (i_2 : ℕ) (b_2 : Bool)
      → Keeps P (create_listing env v i b i_2 b_2)
  unfolding create_listing
  create_listing-keeps env v i b i_2 b_2 = search (effect_rules, add_listing-keeps) depth 24

  pub guard_listing-keeps : (env : Env) (v : Listing) → Keeps P (guard_listing env v)
  unfolding guard_listing
  guard_listing-keeps env v = search (effect_rules, pause_listing-keeps) depth 24

  pub inventory_guard-keeps : (env : Env) → Keeps P (inventory_guard env)
  unfolding inventory_guard
  inventory_guard-keeps env = search (effect_rules, guard_listing-keeps) depth 24

  pub process_received-keeps : (env : Env) (i : ℕ) → Keeps P (process_received env i)
  unfolding process_received
  process_received-keeps env i =
      search (effect_rules, lock_treasury-keeps, validate_received-keeps) depth 24

  pub check_submit-keeps :
      (env : Env) (so : SupplierOrder) (o : Order) → Keeps P (check_submit env so o)
  unfolding check_submit
  check_submit-keeps env so o = search (effect_rules, validate_order-keeps, hold-keeps) depth 24

  pub start_submit-keeps : (env : Env) (i : ℕ) → Keeps P (start_submit env i)
  unfolding start_submit
  start_submit-keeps env i =
      search (effect_rules, lock_treasury-keeps, enqueue-keeps, context-keeps, check_submit-keeps)
        depth 24

  pub accept_submit-keeps : (env : Env) (i : ℕ) (i_2 : ℕ) → Keeps P (accept_submit env i i_2)
  unfolding accept_submit
  accept_submit-keeps env i i_2 =
      search
        (effect_rules, lock_treasury-keeps, enqueue-keeps, transition-keeps, prepare_payment-keeps)
        depth 24

  pub listing_failed-keeps : (env : Env) (i : ℕ) (i_2 : ℕ) → Keeps P (listing_failed env i i_2)
  unfolding listing_failed
  listing_failed-keeps env i i_2 =
      search (effect_rules, lock_treasury-keeps, review-keeps, pause_listing-keeps) depth 24

  pub listing_confirmed-keeps : (i : ℕ) (i_2 : ℕ) (b : Bool) → Keeps P (listing_confirmed i i_2 b)
  unfolding listing_confirmed
  listing_confirmed-keeps i i_2 b = search (effect_rules, lock_treasury-keeps) depth 24

  pub judge_claims-keeps :
      (env : Env) (i : ℕ) (v : List Order) (v_2 : List Claim) → Keeps P (judge_claims env i v v_2)
  unfolding judge_claims
  judge_claims-keeps env i v v_2 = search (effect_rules, review-keeps) depth 24

  pub guard_product-keeps : (env : Env) (v : SupplierProduct) → Keeps P (guard_product env v)
  unfolding guard_product
  guard_product-keeps env v =
      search (effect_rules, pause_listing-keeps, judge_claims-keeps) depth 24

  pub guard_cash_and_claims-keeps : (env : Env) → Keeps P (guard_cash_and_claims env)
  unfolding guard_cash_and_claims
  guard_cash_and_claims-keeps env = search (effect_rules, guard_product-keeps) depth 24
