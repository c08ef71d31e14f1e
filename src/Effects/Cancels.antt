-- ===== src/Effects/Cancels.antt =====
-- The commands around a cancellation.
use saup.Base.{ℕ, Option}
use saup.Domain.SupplierState.{Actor}
use saup.Store.Db.{Db, Env}
use saup.Store.Rows.{Payment, SupplierOrder}
use saup.Store.CaseRows.{BatchItem}
use saup.Store.Monad.Keeps.{Keeps}
use saup.Effects.{Effects, effect_rules, lock_treasury-keeps, review-keeps, transition-keeps}
use saup.Effects.Finance.{release-keeps}
use saup.Effects.Suppliers.{
  supplier_transition-keeps, intervention-keeps, resolve_reviews-keeps, withdraw_payment-keeps,
  request_cancellation-keeps,
}
use saup.Application.SupplierOperations.Cancel.{
  present_order, cancel_order, check_line, cancel_line, cancel_batch, end_order,
  confirm_request_once, confirm_cancellation,
}

module _ {P : Db → Type 0} ⦃effects : Effects P⦄ where
  pub present_order-keeps : (i : ℕ) → Keeps P (present_order i)
  unfolding present_order
  present_order-keeps i = search (effect_rules) depth 24

  pub cancel_order-keeps : (env : Env) (i : ℕ) (a : Actor) → Keeps P (cancel_order env i a)
  unfolding cancel_order
  cancel_order-keeps env i a =
      search (effect_rules, lock_treasury-keeps, request_cancellation-keeps, present_order-keeps)
        depth 24

  pub check_line-keeps : (i : ℕ) (item : BatchItem) → Keeps P (check_line i item)
  unfolding check_line
  check_line-keeps i item = search (effect_rules) depth 24

  pub cancel_line-keeps :
      (env : Env) (a : Actor) (item : BatchItem) → Keeps P (cancel_line env a item)
  unfolding cancel_line
  cancel_line-keeps env a item =
      search (effect_rules, request_cancellation-keeps, present_order-keeps) depth 24

  pub cancel_batch-keeps : (env : Env) (i : ℕ) (a : Actor) → Keeps P (cancel_batch env i a)
  unfolding cancel_batch
  cancel_batch-keeps env i a =
      search (effect_rules, lock_treasury-keeps, check_line-keeps, cancel_line-keeps) depth 24

  pub end_order-keeps : (i : ℕ) (v : Option Payment) → Keeps P (end_order i v)
  unfolding end_order
  end_order-keeps i v =
      search (effect_rules, transition-keeps, release-keeps, withdraw_payment-keeps) depth 24

  pub confirm_request_once-keeps :
      (env : Env) (so : SupplierOrder) (i : ℕ) (i_2 : ℕ) (a : Actor)
      → Keeps P (confirm_request_once env so i i_2 a)
  unfolding confirm_request_once
  confirm_request_once-keeps env so i i_2 a =
      search
        (
          effect_rules, review-keeps, supplier_transition-keeps, intervention-keeps,
          resolve_reviews-keeps, end_order-keeps,
        )
        depth 24

  pub confirm_cancellation-keeps :
      (env : Env) (i : ℕ) (i_2 : ℕ) (a : Actor) → Keeps P (confirm_cancellation env i i_2 a)
  unfolding confirm_cancellation
  confirm_cancellation-keeps env i i_2 a =
      search (effect_rules, lock_treasury-keeps, present_order-keeps, confirm_request_once-keeps)
        depth 24
