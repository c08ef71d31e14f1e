-- ===== src/Effects/Suppliers.antt =====
-- The supplier's side of an order.
use saup.Base.{ℕ, Bool, List, Option, none, some}
use saup.Domain.SupplierState.{SupplierState}
use saup.Store.Db.{Db, Env}
use saup.Store.Keys.{Category}
use saup.Store.Rows.{Who, Payment, SupplierOrder}
use saup.Store.CaseRows.{Batch, BatchItem, InterventionKey}
use saup.Store.Monad.Keeps.{Keeps}
use saup.Effects.{Effects, effect_rules, review-keeps, context-keeps, transition-keeps}
use saup.Effects.Finance.{release-keeps}
use saup.Application.SupplierOperations.Terms.{
  supplier_transition, intervention, resolve_reviews, freeze_intent, intent, validate_order,
  validate_frozen, validate_payable, payment_completed,
}
use saup.Application.SupplierOperations.Request.{
  invalidate_batch, withdraw_payment, cancel_locally, await_supplier, batch_of,
  request_cancellation,
}

module _ {P : Db → Type 0} ⦃effects : Effects P⦄ where
  pub supplier_transition-keeps :
      (i : ℕ) (v : SupplierState) (actor : Who) → Keeps P (supplier_transition i v actor)
  unfolding supplier_transition
  supplier_transition-keeps i v actor = search (effect_rules) depth 24

  pub intervention-keeps :
      (v : InterventionKey) (actor : Who) (v_2 : Option ℕ) → Keeps P (intervention v actor v_2)
  unfolding intervention
  intervention-keeps v actor v_2 = search (effect_rules) depth 24

  pub resolve_reviews-keeps :
      (i : ℕ) (v : List Category) (actor : Who) → Keeps P (resolve_reviews i v actor)
  unfolding resolve_reviews
  resolve_reviews-keeps i v actor = search (effect_rules) depth 24

  pub freeze_intent-keeps :
      (env : Env) (i : ℕ) (so : SupplierOrder) → Keeps P (freeze_intent env i so)
  unfolding freeze_intent
  freeze_intent-keeps env i so = search (effect_rules, context-keeps) depth 24

  pub intent-keeps : (env : Env) (i : ℕ) → Keeps P (intent env i)
  unfolding intent
  intent-keeps env i = search (effect_rules) depth 24

  pub validate_order-keeps : (env : Env) (i : ℕ) (b : Bool) → Keeps P (validate_order env i b)
  unfolding validate_order
  validate_order-keeps env i b = search (effect_rules, context-keeps) depth 24

  pub validate_frozen-keeps : (env : Env) (i : ℕ) (i_2 : ℕ) → Keeps P (validate_frozen env i i_2)
  unfolding validate_frozen
  validate_frozen-keeps env i i_2 =
      search (effect_rules, intent-keeps, validate_order-keeps) depth 24

  pub validate_payable-keeps : (env : Env) (i : ℕ) (i_2 : ℕ) → Keeps P (validate_payable env i i_2)
  unfolding validate_payable
  validate_payable-keeps env i i_2 = search (effect_rules, validate_frozen-keeps) depth 24

  pub payment_completed-keeps : (env : Env) (p : Payment) → Keeps P (payment_completed env p)
  unfolding payment_completed
  payment_completed-keeps env p =
      search (effect_rules, review-keeps, supplier_transition-keeps) depth 24

  pub invalidate_batch-keeps :
      (i : ℕ) (i_2 : ℕ) (actor : Who) → Keeps P (invalidate_batch i i_2 actor)
  unfolding invalidate_batch
  invalidate_batch-keeps i i_2 actor = search (effect_rules, supplier_transition-keeps) depth 24

  pub withdraw_payment-keeps : (v : Option Payment) → Keeps P (withdraw_payment v)
  unfolding withdraw_payment
  withdraw_payment-keeps none = search (effect_rules) depth 24
  withdraw_payment-keeps (some a) = search (effect_rules) depth 24

  pub cancel_locally-keeps :
      (env : Env) (i : ℕ) (i_2 : ℕ) (v : Option Payment) (actor : Who)
      → Keeps P (cancel_locally env i i_2 v actor)
  unfolding cancel_locally
  cancel_locally-keeps env i i_2 v actor =
      search
        (
          effect_rules, transition-keeps, release-keeps, supplier_transition-keeps,
          resolve_reviews-keeps, withdraw_payment-keeps,
        )
        depth 24

  pub await_supplier-keeps :
      (env : Env) (i : ℕ) (v : Option Payment) (v_2 : Option Batch) (b : Bool) (actor : Who)
      → Keeps P (await_supplier env i v v_2 b actor)
  unfolding await_supplier
  await_supplier-keeps env i v v_2 b actor =
      search (effect_rules, review-keeps, supplier_transition-keeps, withdraw_payment-keeps) depth
        24

  pub batch_of-keeps : (v : Option BatchItem) → Keeps P (batch_of v)
  unfolding batch_of
  batch_of-keeps none = search (effect_rules) depth 24
  batch_of-keeps (some a) = search (effect_rules) depth 24

  pub request_cancellation-keeps :
      (env : Env) (i : ℕ) (actor : Who) → Keeps P (request_cancellation env i actor)
  unfolding request_cancellation
  request_cancellation-keeps env i actor =
      search
        (
          effect_rules, transition-keeps, intervention-keeps, invalidate_batch-keeps,
          cancel_locally-keeps, await_supplier-keeps, batch_of-keeps,
        )
        depth 24
