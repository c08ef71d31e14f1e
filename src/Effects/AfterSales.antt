-- ===== src/Effects/AfterSales.antt =====
-- Claims, refunds and settlements.
use saup.Base.{ℕ, ℤ, Bool, true, false, Option}
use saup.Domain.Errors.{Result, ok, err, domain, integration, validation, unexpected}
use saup.Store.Db.{Db, Env}
use saup.Store.Rows.{Who, Order}
use saup.Store.CaseRows.{Claim, ClaimStatus, ClaimCategory, Evidence, Refund, RefundStatus}
use saup.Store.Monad.Keeps.{Keeps}
use saup.Effects.{
  Effects, effect_rules, lock_treasury-keeps, enqueue-keeps, review-keeps, context-keeps,
  transition-keeps, post-keeps,
}
use saup.Effects.Suppliers.{intervention-keeps}
use saup.Application.Books.Gains.{
  refund-Gains, adjustment-Gains, statement-Gains, cash-Gains, recovery-Gains,
}
use saup.Application.AfterSales.Claims.{
  announce_claim, new_claim, open_claim, claim_submitted, record_response, supplier_response,
  confirm_supplier_recovery,
}
use saup.Application.AfterSales.Refunds.{
  announce_refund, add_refund, new_refund, request_refund, start_by, start_refund, lose_refund,
  finish_refund, after_refund_call,
}
use saup.Application.AfterSales.Settlements.{
  new_settlement, reconcile_settlement, confirm_settlement_cash,
}

module _ {P : Db → Type 0} ⦃effects : Effects P⦄ where
  pub announce_claim-keeps :
      (env : Env) (i : ℕ) (v : ClaimStatus) (b : Bool) → Keeps P (announce_claim env i v b)
  unfolding announce_claim
  announce_claim-keeps env i ClaimStatus.ready b = search (effect_rules, enqueue-keeps) depth 24
  announce_claim-keeps env i ClaimStatus.manual_review b =
      search (effect_rules, review-keeps) depth 24
  announce_claim-keeps env i ClaimStatus.evidence_required b =
      search (effect_rules, review-keeps) depth 24
  announce_claim-keeps env i ClaimStatus.supplier_review b =
      search (effect_rules, review-keeps) depth 24
  announce_claim-keeps env i ClaimStatus.refund_eligible b =
      search (effect_rules, review-keeps) depth 24
  announce_claim-keeps env i ClaimStatus.partially_refunded b =
      search (effect_rules, review-keeps) depth 24
  announce_claim-keeps env i ClaimStatus.fully_refunded b =
      search (effect_rules, review-keeps) depth 24

  pub new_claim-keeps :
      (env : Env) (i : ℕ) (i_2 : ℕ) (v : ClaimCategory) (i_3 : ℕ) (v_2 : Evidence) (actor : Who)
      (b : Bool) (i_4 : ℕ) (o : Order)
      → Keeps P (new_claim env i i_2 v i_3 v_2 actor b i_4 o)
  unfolding new_claim
  new_claim-keeps env i i_2 v i_3 v_2 actor b i_4 o =
      search (effect_rules, context-keeps, announce_claim-keeps) depth 24

  pub open_claim-keeps :
      (env : Env) (i : ℕ) (i_2 : ℕ) (i_3 : ℕ) (v : ClaimCategory) (v_2 : ℤ) (v_3 : Evidence)
      (actor : Who) (b : Bool)
      → Keeps P (open_claim env i i_2 i_3 v v_2 v_3 actor b)
  unfolding open_claim
  open_claim-keeps env i i_2 i_3 v v_2 v_3 actor b =
      search (effect_rules, lock_treasury-keeps, new_claim-keeps) depth 24

  pub claim_submitted-keeps : (i : ℕ) → Keeps P (claim_submitted i)
  unfolding claim_submitted
  claim_submitted-keeps i = search (effect_rules, lock_treasury-keeps) depth 24

  pub record_response-keeps :
      (env : Env) (v : Claim) (i : ℕ) (b : Bool) (actor : Who) (b_2 : Bool)
      → Keeps P (record_response env v i b actor b_2)
  unfolding record_response
  record_response-keeps env v i b actor b_2 =
      search (effect_rules, review-keeps, intervention-keeps) depth 24

  pub supplier_response-keeps :
      (env : Env) (i : ℕ) (v : ℤ) (b : Bool) (actor : Who) (b_2 : Bool)
      → Keeps P (supplier_response env i v b actor b_2)
  unfolding supplier_response
  supplier_response-keeps env i v b actor b_2 =
      search (effect_rules, lock_treasury-keeps, record_response-keeps) depth 24

  pub confirm_supplier_recovery-keeps :
      (env : Env) (i : ℕ) (v : ℤ) (b : Bool) (i_2 : ℕ) (actor : Who)
      → Keeps P (confirm_supplier_recovery env i v b i_2 actor)
  unfolding confirm_supplier_recovery
  confirm_supplier_recovery-keeps env i v b i_2 actor =
      search
        (
          effect_rules, lock_treasury-keeps, context-keeps, post-keeps, intervention-keeps,
          recovery-Gains,
        )
        depth 24

  pub announce_refund-keeps :
      (env : Env) (i : ℕ) (b : Bool) (b_2 : Bool) → Keeps P (announce_refund env i b b_2)
  unfolding announce_refund
  announce_refund-keeps env i true b = search (effect_rules) depth 24
  announce_refund-keeps env i false true = search (effect_rules, review-keeps) depth 24
  announce_refund-keeps env i false false = search (effect_rules, enqueue-keeps) depth 24

  pub add_refund-keeps :
      (env : Env) (v : Claim) (o : Order) (i : ℕ) (i_2 : ℕ) (v_2 : Option Who) (b : Bool)
      → Keeps P (add_refund env v o i i_2 v_2 b)
  unfolding add_refund
  add_refund-keeps env v o i i_2 v_2 b =
      search (effect_rules, intervention-keeps, announce_refund-keeps) depth 24

  pub new_refund-keeps :
      (env : Env) (i : ℕ) (i_2 : ℕ) (i_3 : ℕ) (v : Option Who) (b : Bool)
      → Keeps P (new_refund env i i_2 i_3 v b)
  unfolding new_refund
  new_refund-keeps env i i_2 i_3 v b = search (effect_rules, add_refund-keeps) depth 24

  pub request_refund-keeps :
      (env : Env) (i : ℕ) (v : ℤ) (i_2 : ℕ) (i_3 : ℕ) (v_2 : Option Who) (b : Bool)
      → Keeps P (request_refund env i v i_2 i_3 v_2 b)
  unfolding request_refund
  request_refund-keeps env i v i_2 i_3 v_2 b =
      search (effect_rules, lock_treasury-keeps, new_refund-keeps) depth 24

  pub start_by-keeps : (v : RefundStatus) (env : Env) (v_2 : Refund) → Keeps P (start_by v env v_2)
  unfolding start_by
  start_by-keeps RefundStatus.pending env v_2 = search (effect_rules) depth 24
  start_by-keeps RefundStatus.sending env v_2 = search (effect_rules, review-keeps) depth 24
  start_by-keeps RefundStatus.unknown env v_2 = search (effect_rules) depth 24
  start_by-keeps RefundStatus.succeeded env v_2 = search (effect_rules) depth 24
  start_by-keeps RefundStatus.manual_approval env v_2 = search (effect_rules) depth 24
  start_by-keeps RefundStatus.evidence_pending env v_2 = search (effect_rules) depth 24
  start_by-keeps RefundStatus.failed env v_2 = search (effect_rules) depth 24

  pub start_refund-keeps : (env : Env) (i : ℕ) → Keeps P (start_refund env i)
  unfolding start_refund
  start_refund-keeps env i = search (effect_rules, lock_treasury-keeps, start_by-keeps) depth 24

  pub lose_refund-keeps : (env : Env) (i : ℕ) → Keeps P (lose_refund env i)
  unfolding lose_refund
  lose_refund-keeps env i = search (effect_rules, lock_treasury-keeps, review-keeps) depth 24

  pub finish_refund-keeps : (env : Env) (i : ℕ) (i_2 : ℕ) → Keeps P (finish_refund env i i_2)
  unfolding finish_refund
  finish_refund-keeps env i i_2 =
      search (effect_rules, lock_treasury-keeps, post-keeps, refund-Gains) depth 24

  pub after_refund_call-keeps :
      (env : Env) (i : ℕ) (v : Result ℕ) → Keeps P (after_refund_call env i v)
  unfolding after_refund_call
  after_refund_call-keeps env i (ok a) = search (effect_rules, finish_refund-keeps) depth 24
  after_refund_call-keeps env i (err (domain code status)) = search (effect_rules) depth 24
  after_refund_call-keeps env i (err (integration code retryable uncertain)) =
      search (effect_rules, lose_refund-keeps) depth 24
  after_refund_call-keeps env i (err validation) = search (effect_rules) depth 24
  after_refund_call-keeps env i (err unexpected) = search (effect_rules) depth 24

  pub new_settlement-keeps :
      (env : Env) (i : ℕ) (i_2 : ℕ) (i_3 : ℕ) (v : ℤ) (i_4 : ℕ) (v_2 : Option Who) (i_5 : ℕ)
      → Keeps P (new_settlement env i i_2 i_3 v i_4 v_2 i_5)
  unfolding new_settlement
  new_settlement-keeps env i i_2 i_3 v i_4 v_2 i_5 =
      search
        (
          effect_rules, review-keeps, transition-keeps, post-keeps, intervention-keeps,
          adjustment-Gains, statement-Gains,
        )
        depth 24

  pub reconcile_settlement-keeps :
      (env : Env) (i : ℕ) (i_2 : ℕ) (v : ℤ) (v_2 : ℤ) (v_3 : ℤ) (v_4 : Option Who)
      → Keeps P (reconcile_settlement env i i_2 v v_2 v_3 v_4)
  unfolding reconcile_settlement
  reconcile_settlement-keeps env i i_2 v v_2 v_3 v_4 =
      search (effect_rules, lock_treasury-keeps, new_settlement-keeps) depth 24

  pub confirm_settlement_cash-keeps :
      (env : Env) (i : ℕ) (b : Bool) (i_2 : ℕ) (actor : Who)
      → Keeps P (confirm_settlement_cash env i b i_2 actor)
  unfolding confirm_settlement_cash
  confirm_settlement_cash-keeps env i b i_2 actor =
      search
        (
          effect_rules, lock_treasury-keeps, transition-keeps, post-keeps, intervention-keeps,
          cash-Gains,
        )
        depth 24
