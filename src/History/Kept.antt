-- ===== src/History/Kept.antt =====
-- What all effects keep is kept by every sequence of transactions.
use saup.Base.{List, [], ◌∷◌}
use saup.Store.Db.{Db, Env}
use saup.Store.Monad.{commit}
use saup.Store.Monad.Keeps.{Keeps, Keeps-bind, Keeps-pure, commit-Keeps}
use saup.Effects.{Effects, Sends}
use saup.Effects.Orders.{
  ingest-keeps, validate_received-keeps, prepare_payment-keeps, after_call-keeps, conclude-keeps,
  cancel-keeps, confirm_supplier_cancel-keeps, add_shipment-keeps, shipment_synced-keeps,
  delivered-keeps,
}
use saup.Effects.AfterSales.{
  open_claim-keeps, claim_submitted-keeps, supplier_response-keeps, confirm_supplier_recovery-keeps,
  request_refund-keeps, start_refund-keeps, after_refund_call-keeps, reconcile_settlement-keeps,
  confirm_settlement_cash-keeps,
}
use saup.Effects.Calls.{
  process_received-keeps, start_submit-keeps, accept_submit-keeps, create_listing-keeps,
  inventory_guard-keeps, listing_failed-keeps, listing_confirmed-keeps, guard_cash_and_claims-keeps,
}
use saup.Effects.Cancels.{cancel_order-keeps, cancel_batch-keeps, confirm_cancellation-keeps}
use saup.Effects.Batches.{export_batch-keeps, mark_sent-keeps, resolve_batch-keeps}
use saup.Effects.Answers.{acknowledge-keeps}
use saup.Effects.Evidence.{
  note_evidence-keeps, attest_evidence-keeps, adopt_verified_unsent_legacy-keeps,
}
use saup.Effects.Operations.{
  funds-keeps, confirm_shipment-keeps, confirm_delivery-keeps, confirm_response-keeps,
  recovery-keeps, confirm_refund-keeps, settlement-keeps, settlement_cash-keeps,
  correct_settlement-keeps,
}
use saup.Effects.Jobs.{take-keeps, finish-keeps, replay-keeps}
use saup.History.{
  Request, order_line, validation, preparation, approval, dispatching, payment_answer,
  reconciliation, cancellation, supplier_cancelled, shipment, shipment_taken, delivery, claim,
  claim_taken, response, recovery, refund, refund_start, refund_answer, settlement, settlement_cash,
  processing, submission, submission_answer, listing, stock_check, listing_failure, listing_success,
  order_withdrawal, batch_withdrawal, withdrawal_answer, risk_check, batch, batch_download,
  batch_sent, batch_answer, batch_end, evidence, attestation, adoption, funding, shipment_shown,
  delivery_shown, claim_answer, claim_repayment, refund_shown, statement, statement_cash,
  correction, job, job_end, replayed, run, history,
}

module _ {P : Db → Type 0} ⦃effects : Effects P⦄ (sends : Sends P) where
  run-keeps : (env : Env) (request : Request) → Keeps P (run env request)
  unfolding run
  run-keeps env (order_line v b) = Keeps-bind _ _ (ingest-keeps env v b) (λ _. Keeps-pure tt)
  run-keeps env (validation i) = Keeps-bind _ _ (validate_received-keeps env i) (λ _. Keeps-pure tt)
  run-keeps env (preparation i i_2) =
      Keeps-bind _ _ (prepare_payment-keeps env i i_2) (λ _. Keeps-pure tt)
  run-keeps env (approval i i_2 i_3 actor) =
      Keeps-bind _ _ (sends.approve env i i_2 i_3 actor) (λ _. Keeps-pure tt)
  run-keeps env (dispatching i) = Keeps-bind _ _ (sends.send env i) (λ _. Keeps-pure tt)
  run-keeps env (payment_answer i v) =
      Keeps-bind _ _ (after_call-keeps env i v) (λ _. Keeps-pure tt)
  run-keeps env (reconciliation i v) = Keeps-bind _ _ (conclude-keeps env i v) (λ _. Keeps-pure tt)
  run-keeps env (cancellation i actor) =
      Keeps-bind _ _ (cancel-keeps env i actor) (λ _. Keeps-pure tt)
  run-keeps env (supplier_cancelled i) =
      Keeps-bind _ _ (confirm_supplier_cancel-keeps env i) (λ _. Keeps-pure tt)
  run-keeps env (shipment v v_2) =
      Keeps-bind _ _ (add_shipment-keeps env v v_2) (λ _. Keeps-pure tt)
  run-keeps env (shipment_taken i) = Keeps-bind _ _ (shipment_synced-keeps i) (λ _. Keeps-pure tt)
  run-keeps env (delivery i) = Keeps-bind _ _ (delivered-keeps env i) (λ _. Keeps-pure tt)
  run-keeps env (claim i i_2 i_3 v v_2 v_3 actor b) =
      Keeps-bind _ _ (open_claim-keeps env i i_2 i_3 v v_2 v_3 actor b) (λ _. Keeps-pure tt)
  run-keeps env (claim_taken i) = Keeps-bind _ _ (claim_submitted-keeps i) (λ _. Keeps-pure tt)
  run-keeps env (response i v b actor b_2) =
      Keeps-bind _ _ (supplier_response-keeps env i v b actor b_2) (λ _. Keeps-pure tt)
  run-keeps env (recovery i v b i_2 actor) =
      Keeps-bind _ _ (confirm_supplier_recovery-keeps env i v b i_2 actor) (λ _. Keeps-pure tt)
  run-keeps env (refund i v i_2 i_3 v_2 b) =
      Keeps-bind _ _ (request_refund-keeps env i v i_2 i_3 v_2 b) (λ _. Keeps-pure tt)
  run-keeps env (refund_start i) = Keeps-bind _ _ (start_refund-keeps env i) (λ _. Keeps-pure tt)
  run-keeps env (refund_answer i v) =
      Keeps-bind _ _ (after_refund_call-keeps env i v) (λ _. Keeps-pure tt)
  run-keeps env (settlement i i_2 v v_2 v_3 v_4) =
      Keeps-bind _ _ (reconcile_settlement-keeps env i i_2 v v_2 v_3 v_4) (λ _. Keeps-pure tt)
  run-keeps env (settlement_cash i b i_2 actor) =
      Keeps-bind _ _ (confirm_settlement_cash-keeps env i b i_2 actor) (λ _. Keeps-pure tt)
  run-keeps env (processing i) = Keeps-bind _ _ (process_received-keeps env i) (λ _. Keeps-pure tt)
  run-keeps env (submission i) = Keeps-bind _ _ (start_submit-keeps env i) (λ _. Keeps-pure tt)
  run-keeps env (submission_answer i i_2) =
      Keeps-bind _ _ (accept_submit-keeps env i i_2) (λ _. Keeps-pure tt)
  run-keeps env (listing v i b i_2 b_2) =
      Keeps-bind _ _ (create_listing-keeps env v i b i_2 b_2) (λ _. Keeps-pure tt)
  run-keeps env stock_check = Keeps-bind _ _ (inventory_guard-keeps env) (λ _. Keeps-pure tt)
  run-keeps env (listing_failure i i_2) =
      Keeps-bind _ _ (listing_failed-keeps env i i_2) (λ _. Keeps-pure tt)
  run-keeps env (listing_success i i_2 b) =
      Keeps-bind _ _ (listing_confirmed-keeps i i_2 b) (λ _. Keeps-pure tt)
  run-keeps env (order_withdrawal i a) =
      Keeps-bind _ _ (cancel_order-keeps env i a) (λ _. Keeps-pure tt)
  run-keeps env (batch_withdrawal i a) =
      Keeps-bind _ _ (cancel_batch-keeps env i a) (λ _. Keeps-pure tt)
  run-keeps env (withdrawal_answer i i_2 a) =
      Keeps-bind _ _ (confirm_cancellation-keeps env i i_2 a) (λ _. Keeps-pure tt)
  run-keeps env risk_check = Keeps-bind _ _ (guard_cash_and_claims-keeps env) (λ _. Keeps-pure tt)
  run-keeps env (batch v a) = Keeps-bind _ _ (sends.batch env v a) (λ _. Keeps-pure tt)
  run-keeps env (batch_download i a) =
      Keeps-bind _ _ (export_batch-keeps env i a) (λ _. Keeps-pure tt)
  run-keeps env (batch_sent i v a) = Keeps-bind _ _ (mark_sent-keeps env i v a) (λ _. Keeps-pure tt)
  run-keeps env (batch_answer i v a) =
      Keeps-bind _ _ (acknowledge-keeps env i v a) (λ _. Keeps-pure tt)
  run-keeps env (batch_end i a) = Keeps-bind _ _ (resolve_batch-keeps i a) (λ _. Keeps-pure tt)
  run-keeps env (evidence i v a) =
      Keeps-bind _ _ (note_evidence-keeps env i v a) (λ _. Keeps-pure tt)
  run-keeps env (attestation i v a) =
      Keeps-bind _ _ (attest_evidence-keeps env i v a) (λ _. Keeps-pure tt)
  run-keeps env (adoption i i_2 a) =
      Keeps-bind _ _ (adopt_verified_unsent_legacy-keeps env i i_2 a) (λ _. Keeps-pure tt)
  run-keeps env (funding v a v_2) = Keeps-bind _ _ (funds-keeps env v a v_2) (λ _. Keeps-pure tt)
  run-keeps env (shipment_shown i v a) =
      Keeps-bind _ _ (confirm_shipment-keeps env i v a) (λ _. Keeps-pure tt)
  run-keeps env (delivery_shown i v a) =
      Keeps-bind _ _ (confirm_delivery-keeps env i v a) (λ _. Keeps-pure tt)
  run-keeps env (claim_answer i v a) =
      Keeps-bind _ _ (confirm_response-keeps env i v a) (λ _. Keeps-pure tt)
  run-keeps env (claim_repayment i v a) =
      Keeps-bind _ _ (recovery-keeps env i v a) (λ _. Keeps-pure tt)
  run-keeps env (refund_shown i v a) =
      Keeps-bind _ _ (confirm_refund-keeps env i v a) (λ _. Keeps-pure tt)
  run-keeps env (statement i v a) = Keeps-bind _ _ (settlement-keeps env i v a) (λ _. Keeps-pure tt)
  run-keeps env (statement_cash i v a) =
      Keeps-bind _ _ (settlement_cash-keeps env i v a) (λ _. Keeps-pure tt)
  run-keeps env (correction i v a) =
      Keeps-bind _ _ (correct_settlement-keeps env i v a) (λ _. Keeps-pure tt)
  run-keeps env job = Keeps-bind _ _ (take-keeps env) (λ _. Keeps-pure tt)
  run-keeps env (job_end v v_2) = Keeps-bind _ _ (finish-keeps env v v_2) (λ _. Keeps-pure tt)
  run-keeps env (replayed i actor) = Keeps-bind _ _ (replay-keeps env i actor) (λ _. Keeps-pure tt)

  pub history-keeps : (steps : List (Env × Request)) (db : Db) → P db → P (history steps db)
  unfolding history
  history-keeps [] db h = h
  history-keeps ((env, request) ∷ later) db h =
      history-keeps later (commit (run env request) db).1
        (commit-Keeps (run env request) db (run-keeps env request) h)
