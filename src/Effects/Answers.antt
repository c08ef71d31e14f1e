-- ===== src/Effects/Answers.antt =====
-- The supplier's answer to a batch.
use saup.Base.{ℕ, Bool, List, Option}
use saup.Domain.SupplierState.{Actor}
use saup.Domain.SupplierCommands.{Acknowledge, RejectionReason}
use saup.Store.Db.{Db, Env}
use saup.Store.Rows.{SupplierOrder, Order}
use saup.Store.CaseRows.{Batch, BatchItem, AckStatus, LineReason}
use saup.Store.Monad.Keeps.{Keeps}
use saup.Effects.{
  Effects, effect_rules, lock_treasury-keeps, review-keeps, context-keeps, pause_listing-keeps,
  transition-keeps,
}
use saup.Effects.Finance.{release-keeps}
use saup.Effects.Suppliers.{
  supplier_transition-keeps, intervention-keeps, resolve_reviews-keeps, intent-keeps,
}
use saup.Effects.Orders.{hold-keeps, prepare_payment-keeps}
use saup.Effects.Cancels.{present_order-keeps}
use saup.Effects.Batches.{present_line-keeps, present_batch-keeps}
use saup.Application.SupplierOperations.Acknowledge.{
  answer_line, pause_line, review_line, reject_line, accept_line, decide_line, acknowledge_line,
  prepare_accepted, check_answer, answer_batch, acknowledge,
}

module _ {P : Db → Type 0} ⦃effects : Effects P⦄ where
  pub answer_line-keeps :
      (item : BatchItem) (v : AckStatus) (v_2 : Option ℕ) (v_3 : Option LineReason)
      → Keeps P (answer_line item v v_2 v_3)
  unfolding answer_line
  answer_line-keeps item v v_2 v_3 = search (effect_rules) depth 24

  pub pause_line-keeps : (env : Env) (o : Order) → Keeps P (pause_line env o)
  unfolding pause_line
  pause_line-keeps env o = search (effect_rules, context-keeps, pause_listing-keeps) depth 24

  pub review_line-keeps :
      (env : Env) (item : BatchItem) (so : SupplierOrder) (o : Order) (v : Option RejectionReason)
      (a : Actor)
      → Keeps P (review_line env item so o v a)
  unfolding review_line
  review_line-keeps env item so o v a =
      search
        (
          effect_rules, review-keeps, supplier_transition-keeps, hold-keeps, answer_line-keeps,
          pause_line-keeps,
        )
        depth 24

  pub reject_line-keeps :
      (env : Env) (item : BatchItem) (so : SupplierOrder) (o : Order) (v : RejectionReason)
      (a : Actor)
      → Keeps P (reject_line env item so o v a)
  unfolding reject_line
  reject_line-keeps env item so o v a =
      search
        (
          effect_rules, review-keeps, release-keeps, supplier_transition-keeps, hold-keeps,
          answer_line-keeps, pause_line-keeps,
        )
        depth 24

  pub accept_line-keeps :
      (env : Env) (item : BatchItem) (so : SupplierOrder) (o : Order) (i : ℕ) (a : Actor)
      → Keeps P (accept_line env item so o i a)
  unfolding accept_line
  accept_line-keeps env item so o i a =
      search
        (effect_rules, review-keeps, transition-keeps, supplier_transition-keeps, answer_line-keeps)
        depth 24

  pub decide_line-keeps :
      (env : Env) (item : BatchItem) (so : SupplierOrder) (o : Order) (b : Bool)
      (v : Option RejectionReason) (i : ℕ) (a : Actor)
      → Keeps P (decide_line env item so o b v i a)
  unfolding decide_line
  decide_line-keeps env item so o b v i a =
      search (effect_rules, review_line-keeps, reject_line-keeps, accept_line-keeps) depth 24

  pub acknowledge_line-keeps :
      (env : Env) (i : ℕ) (v : Acknowledge) (a : Actor) (item : BatchItem)
      → Keeps P (acknowledge_line env i v a item)
  unfolding acknowledge_line
  acknowledge_line-keeps env i v a item =
      search
        (
          effect_rules, intervention-keeps, resolve_reviews-keeps, intent-keeps,
          present_order-keeps, present_line-keeps, decide_line-keeps,
        )
        depth 24

  pub prepare_accepted-keeps : (env : Env) (i : ℕ) → Keeps P (prepare_accepted env i)
  unfolding prepare_accepted
  prepare_accepted-keeps env i = search (effect_rules, prepare_payment-keeps) depth 24

  pub check_answer-keeps : (v : Acknowledge) (v_2 : List ℕ) → Keeps P (check_answer v v_2)
  unfolding check_answer
  check_answer-keeps v v_2 = search (effect_rules) depth 24

  pub answer_batch-keeps :
      (env : Env) (b : Batch) (v : Acknowledge) (a : Actor) → Keeps P (answer_batch env b v a)
  unfolding answer_batch
  answer_batch-keeps env b v a =
      search (effect_rules, acknowledge_line-keeps, prepare_accepted-keeps, check_answer-keeps)
        depth 24

  pub acknowledge-keeps :
      (env : Env) (i : ℕ) (v : Acknowledge) (a : Actor) → Keeps P (acknowledge env i v a)
  unfolding acknowledge
  acknowledge-keeps env i v a =
      search (effect_rules, lock_treasury-keeps, present_batch-keeps, answer_batch-keeps) depth 24
