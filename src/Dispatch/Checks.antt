-- ===== src/Dispatch/Checks.antt =====
-- The checks before money is sent write nothing: they keep whatever holds of the state.
use saup.Base.{ℕ, Bool}
use saup.Store.Db.{Db, Env}
use saup.Store.Rows.{Payment, Order}
use saup.Store.Monad.Keeps.{Keeps}
use saup.Store.Monad.Keeps.{keeps_rules}
use saup.Application.Common.{lock_treasury}
use saup.Application.OrderRules.{context}
use saup.Application.SupplierOperations.Terms.{
  intent, validate_order, validate_frozen, validate_payable,
}
use saup.Application.Commerce.Payments.{check_dispatch}

module _ {P : Db → Type 0} where
  pub lock_treasury-reads : Keeps P (lock_treasury)
  unfolding lock_treasury
  lock_treasury-reads = search (keeps_rules) depth 24

  pub context-reads : (o : Order) → Keeps P (context o)
  unfolding context
  context-reads o = search (keeps_rules) depth 24

  pub intent-reads : (env : Env) (i : ℕ) → Keeps P (intent env i)
  unfolding intent
  intent-reads env i = search (keeps_rules) depth 24

  pub validate_order-reads : (env : Env) (i : ℕ) (b : Bool) → Keeps P (validate_order env i b)
  unfolding validate_order
  validate_order-reads env i b = search (keeps_rules, context-reads) depth 24

  pub validate_frozen-reads : (env : Env) (i : ℕ) (i_2 : ℕ) → Keeps P (validate_frozen env i i_2)
  unfolding validate_frozen
  validate_frozen-reads env i i_2 =
      search (keeps_rules, intent-reads, validate_order-reads) depth 24

  pub validate_payable-reads : (env : Env) (i : ℕ) (i_2 : ℕ) → Keeps P (validate_payable env i i_2)
  unfolding validate_payable
  validate_payable-reads env i i_2 = search (keeps_rules, validate_frozen-reads) depth 24

  pub check_dispatch-reads : (env : Env) (p : Payment) → Keeps P (check_dispatch env p)
  unfolding check_dispatch
  check_dispatch-reads env p =
      search (keeps_rules, validate_order-reads, validate_payable-reads) depth 24
