-- ===== src/Effects/Evidence.antt =====
-- Payments by evidence, and orders from before the batches.
use saup.Base.{ℕ, Option, none, some}
use saup.Domain.Errors.{Error}
use saup.Domain.SupplierState.{Actor}
use saup.Domain.SupplierCommands.{EvidenceRecord, EvidenceConfirm}
use saup.Store.Db.{Db, Env}
use saup.Store.Rows.{Payment}
use saup.Store.CaseRows.{BatchItem, Proof}
use saup.Store.Monad.Keeps.{Keeps}
use saup.Effects.{
  Effects, effect_rules, lock_treasury-keeps, review-keeps, transition-keeps, settle_payment-keeps,
}
use saup.Effects.Suppliers.{
  supplier_transition-keeps, intervention-keeps, resolve_reviews-keeps, freeze_intent-keeps,
  intent-keeps, validate_order-keeps, validate_frozen-keeps, validate_payable-keeps,
  payment_completed-keeps,
}
use saup.Effects.Cancels.{present_order-keeps}
use saup.Effects.Batches.{present_line-keeps, present_batch-keeps}
use saup.Effects.{execute_command-keeps}
use saup.Application.SupplierOperations.Evidence.{
  present_payment, present_proof, add_proof, manual_batch, judge_evidence, note_evidence,
  check_confirmation, block_confirmation, bind_revision, add_confirmation, pay_by_evidence,
  judge_confirmation, attest_evidence,
}
use saup.Application.SupplierOperations.Legacy.{adopt_legacy, adopt_verified_unsent_legacy}

module _ {P : Db → Type 0} ⦃effects : Effects P⦄ where
  pub present_payment-keeps : (i : ℕ) → Keeps P (present_payment i)
  unfolding present_payment
  present_payment-keeps i = search (effect_rules) depth 24

  pub present_proof-keeps : (i : ℕ) → Keeps P (present_proof i)
  unfolding present_proof
  present_proof-keeps i = search (effect_rules) depth 24

  pub add_proof-keeps :
      (env : Env) (p : Payment) (v : EvidenceRecord) (i : ℕ) (a : Actor)
      → Keeps P (add_proof env p v i a)
  unfolding add_proof
  add_proof-keeps env p v i a = search (effect_rules, intervention-keeps) depth 24

  pub manual_batch-keeps : (p : Payment) (v : Option BatchItem) → Keeps P (manual_batch p v)
  unfolding manual_batch
  manual_batch-keeps p none = search (effect_rules) depth 24
  manual_batch-keeps p (some item) = search (effect_rules, present_batch-keeps) depth 24

  pub judge_evidence-keeps :
      (env : Env) (p : Payment) (v : EvidenceRecord) (a : Actor)
      → Keeps P (judge_evidence env p v a)
  unfolding judge_evidence
  judge_evidence-keeps env p v a =
      search
        (
          effect_rules, review-keeps, intent-keeps, present_order-keeps, present_line-keeps,
          add_proof-keeps, manual_batch-keeps,
        )
        depth 24

  pub note_evidence-keeps :
      (env : Env) (i : ℕ) (v : EvidenceRecord) (a : Actor) → Keeps P (note_evidence env i v a)
  unfolding note_evidence
  note_evidence-keeps env i v a =
      search (effect_rules, lock_treasury-keeps, present_payment-keeps, judge_evidence-keeps) depth
        24

  pub check_confirmation-keeps :
      (env : Env) (p : Payment) (v : Proof) (v_2 : EvidenceConfirm)
      → Keeps P (check_confirmation env p v v_2)
  unfolding check_confirmation
  check_confirmation-keeps env p v v_2 = search (effect_rules, validate_payable-keeps) depth 24

  pub block_confirmation-keeps :
      (env : Env) (p : Payment) (a : Actor) (e : Error) → Keeps P (block_confirmation env p a e)
  unfolding block_confirmation
  block_confirmation-keeps env p a e = search (effect_rules, review-keeps) depth 24

  pub bind_revision-keeps : (i : ℕ) (v : Option ℕ) → Keeps P (bind_revision i v)
  unfolding bind_revision
  bind_revision-keeps i none = search (effect_rules) depth 24
  bind_revision-keeps i (some a) = search (effect_rules) depth 24

  pub add_confirmation-keeps :
      (env : Env) (p : Payment) (v : Proof) (v_2 : EvidenceConfirm) (a : Actor)
      → Keeps P (add_confirmation env p v v_2 a)
  unfolding add_confirmation
  add_confirmation-keeps env p v v_2 a = search (effect_rules, bind_revision-keeps) depth 24

  pub pay_by_evidence-keeps :
      (env : Env) (p : Payment) (v : Proof) (v_2 : EvidenceConfirm) (a : Actor)
      → Keeps P (pay_by_evidence env p v v_2 a)
  unfolding pay_by_evidence
  pay_by_evidence-keeps env p v v_2 a =
      search
        (
          effect_rules, transition-keeps, settle_payment-keeps, intervention-keeps,
          resolve_reviews-keeps, payment_completed-keeps, add_confirmation-keeps,
        )
        depth 24

  pub judge_confirmation-keeps :
      (env : Env) (p : Payment) (v : Proof) (v_2 : EvidenceConfirm) (a : Actor)
      → Keeps P (judge_confirmation env p v v_2 a)
  unfolding judge_confirmation
  judge_confirmation-keeps env p v v_2 a =
      search
        (
          effect_rules, present_order-keeps, present_line-keeps, check_confirmation-keeps,
          block_confirmation-keeps, pay_by_evidence-keeps,
        )
        depth 24

  pub attest_evidence-keeps :
      (env : Env) (i : ℕ) (v : EvidenceConfirm) (a : Actor) → Keeps P (attest_evidence env i v a)
  unfolding attest_evidence
  attest_evidence-keeps env i v a =
      search
        (
          effect_rules, lock_treasury-keeps, present_payment-keeps, present_proof-keeps,
          judge_confirmation-keeps,
        )
        depth 24

  pub adopt_legacy-keeps : (env : Env) (i : ℕ) (a : Actor) → Keeps P (adopt_legacy env i a)
  unfolding adopt_legacy
  adopt_legacy-keeps env i a =
      search
        (
          effect_rules, supplier_transition-keeps, intervention-keeps, resolve_reviews-keeps,
          freeze_intent-keeps, validate_order-keeps, validate_frozen-keeps, present_order-keeps,
          present_line-keeps,
        )
        depth 24

  pub adopt_verified_unsent_legacy-keeps :
      (env : Env) (i : ℕ) (i_2 : ℕ) (a : Actor) → Keeps P (adopt_verified_unsent_legacy env i i_2 a)
  unfolding adopt_verified_unsent_legacy
  adopt_verified_unsent_legacy-keeps env i i_2 a =
      search (effect_rules, lock_treasury-keeps, execute_command-keeps, adopt_legacy-keeps) depth 24
