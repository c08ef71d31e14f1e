-- ===== src/Effects/Dispatching.antt =====
-- The approval and the dispatch of a payment, for invariants that do not speak of payments.
use saup.Base.{ℕ}
use saup.Domain.Errors.{Error}
use saup.Store.Db.{Db, Env}
use saup.Store.Rows.{Payment, PaymentStatus, Who}
use saup.Store.Monad.Keeps.{Keeps}
use saup.Store.Tables.{update_payment}
use saup.Application.Commerce.Payments.{
  release_payment, approve_payment, send_payment, refuse_payment, dispatch_by, dispatch,
}
use saup.Application.SupplierOperations.Batches.{create_batch}
use saup.Domain.SupplierCommands.{BatchCreate}
use saup.Domain.SupplierState.{Actor}
use saup.Effects.{Effects, Sends, effect_rules, lock_treasury-keeps, enqueue-keeps, review-keeps}
use saup.Effects.Suppliers.{intervention-keeps, resolve_reviews-keeps}
use saup.Effects.Orders.{hold-keeps, payable_batch-keeps, check_dispatch-keeps}

module _ {P : Db → Type 0} ⦃effects : Effects P⦄
    (free : (i : ℕ) (g : Payment → Payment) → Keeps P (update_payment i g)) where
  release_payment-free : (env : Env) (p : Payment) (who : Who) → Keeps P (release_payment env p who)
  unfolding release_payment
  release_payment-free env p who =
      search
        (
          effect_rules, free, enqueue-keeps, payable_batch-keeps, intervention-keeps,
          resolve_reviews-keeps,
        )
        depth 24

  approve_payment-free :
      (env : Env) (i amount destination : ℕ) (who : Who)
      → Keeps P (approve_payment env i amount destination who)
  unfolding approve_payment
  approve_payment-free env i amount destination who =
      search (effect_rules, lock_treasury-keeps, release_payment-free) depth 24

  send_payment-free : (env : Env) (p : Payment) → Keeps P (send_payment env p)
  unfolding send_payment
  send_payment-free env p = search (effect_rules, free, review-keeps) depth 24

  refuse_payment-free : (env : Env) (p : Payment) (e : Error) → Keeps P (refuse_payment env p e)
  unfolding refuse_payment
  refuse_payment-free env p e = search (effect_rules, free, hold-keeps) depth 24

  dispatch_by-free :
      (status : PaymentStatus) (env : Env) (p : Payment) → Keeps P (dispatch_by status env p)
  unfolding dispatch_by
  dispatch_by-free PaymentStatus.sending env p = search (effect_rules, free, review-keeps) depth 24
  dispatch_by-free PaymentStatus.pending env p =
      search (effect_rules, free, check_dispatch-keeps, send_payment-free, refuse_payment-free)
        depth 24
  dispatch_by-free _ env p = search effect_rules depth 8

  dispatch-free : (env : Env) (i : ℕ) → Keeps P (dispatch env i)
  unfolding dispatch
  dispatch-free env i = search (effect_rules, lock_treasury-keeps, dispatch_by-free) depth 24

  pub free_sends :
      ((env : Env) (cmd : BatchCreate) (actor : Actor) → Keeps P (create_batch env cmd actor))
      → Sends P
  free_sends batch = record { approve = approve_payment-free; send = dispatch-free; batch = batch }
