-- ===== src/History.antt =====
-- The modelled transactions of the program in any order: each runs under the treasury's lock, so that
-- what the threads and the worker do together is a sequence of them. A transaction that raises is
-- rolled back.
pub mod Kept
pub mod Ledger
pub mod Payments
use saup.Base.{ℕ, ℤ, Bool, List, [], ◌∷◌, Option}
use saup.Domain.Errors.{Result, ok, err}
use saup.Domain.SupplierState.{Actor}
use saup.Domain.SupplierCommands.{
  BatchCreate, MarkSent, Acknowledge, EvidenceRecord, EvidenceConfirm,
}
use saup.Store.Db.{Db, Env}
use saup.Store.Rows.{Who, SupplierProduct}
use saup.Store.CaseRows.{ClaimCategory, Evidence}
use saup.Store.Monad.{M, pure, commit, ◌>>=◌, ◌>>◌}
use saup.Application.Commerce.Intake.{ingest, validate_received, OrderInput}
use saup.Application.Commerce.Payments.{
  prepare_payment, approve_payment, dispatch, after_call, conclude, Answer,
}
use saup.Application.Commerce.Cancel.{cancel, confirm_supplier_cancel}
use saup.Application.Commerce.Shipping.{add_shipment, shipment_synced, delivered, ShipmentRow}
use saup.Application.AfterSales.Claims.{
  open_claim, claim_submitted, supplier_response, confirm_supplier_recovery,
}
use saup.Application.AfterSales.Refunds.{request_refund, start_refund, after_refund_call}
use saup.Application.AfterSales.Settlements.{reconcile_settlement, confirm_settlement_cash}
use saup.Application.Commerce.Submit.{process_received, start_submit, accept_submit}
use saup.Application.Catalog.{create_listing, inventory_guard}
use saup.Application.Commerce.Sync.{listing_failed, listing_confirmed}
use saup.Application.SupplierOperations.Cancel.{cancel_order, cancel_batch, confirm_cancellation}
use saup.Application.Risk.{guard_cash_and_claims}
use saup.Application.SupplierOperations.Batches.{create_batch}
use saup.Application.SupplierOperations.Sending.{export_batch, mark_sent, resolve_batch}
use saup.Application.SupplierOperations.Acknowledge.{acknowledge}
use saup.Application.SupplierOperations.Evidence.{note_evidence, attest_evidence}
use saup.Application.SupplierOperations.Legacy.{adopt_verified_unsent_legacy}
use saup.Application.Operations.Funds.{funds}
use saup.Application.Operations.Delivery.{confirm_shipment, confirm_delivery}
use saup.Application.Operations.Cases.{confirm_response, confirm_refund}
use saup.Application.Operations.Settlements.{correct_settlement}
use saup.Worker.{take, finish, replay, Lease}
use saup.Application.Operations.Settlements
use saup.Application.Operations.Cases
use saup.Domain.OperatorCommands
use saup.Domain.OperatorCommands.{
  FundsInput, ShipmentConfirmation, ClaimResponse, RefundConfirmation, SettlementInput,
  CashConfirmation, SettlementCorrection,
}

-- A transaction, with its arguments and what the outside answered.
pub data Request : Type 0 where
  order_line : OrderInput → Bool → Request
  validation : ℕ → Request
  preparation : ℕ → ℕ → Request
  approval : ℕ → ℕ → ℕ → Who → Request
  dispatching : ℕ → Request
  payment_answer : ℕ → Result ℕ → Request
  reconciliation : ℕ → Answer → Request
  cancellation : ℕ → Who → Request
  supplier_cancelled : ℕ → Request
  shipment : ShipmentRow → Option ℕ → Request
  shipment_taken : ℕ → Request
  delivery : ℕ → Request
  claim : ℕ → ℕ → ℕ → ClaimCategory → ℤ → Evidence → Who → Bool → Request
  claim_taken : ℕ → Request
  response : ℕ → ℤ → Bool → Who → Bool → Request
  recovery : ℕ → ℤ → Bool → ℕ → Who → Request
  refund : ℕ → ℤ → ℕ → ℕ → Option Who → Bool → Request
  refund_start : ℕ → Request
  refund_answer : ℕ → Result ℕ → Request
  settlement : ℕ → ℕ → ℤ → ℤ → ℤ → Option Who → Request
  settlement_cash : ℕ → Bool → ℕ → Who → Request
  processing : ℕ → Request
  submission : ℕ → Request
  submission_answer : ℕ → ℕ → Request
  listing : SupplierProduct → ℕ → Bool → ℕ → Bool → Request
  stock_check : Request
  listing_failure : ℕ → ℕ → Request
  listing_success : ℕ → ℕ → Bool → Request
  order_withdrawal : ℕ → Actor → Request
  batch_withdrawal : ℕ → Actor → Request
  withdrawal_answer : ℕ → ℕ → Actor → Request
  risk_check : Request
  batch : BatchCreate → Actor → Request
  batch_download : ℕ → Actor → Request
  batch_sent : ℕ → MarkSent → Actor → Request
  batch_answer : ℕ → Acknowledge → Actor → Request
  batch_end : ℕ → Actor → Request
  evidence : ℕ → EvidenceRecord → Actor → Request
  attestation : ℕ → EvidenceConfirm → Actor → Request
  adoption : ℕ → ℕ → Actor → Request
  funding : FundsInput → Actor → Option ℕ → Request
  shipment_shown : ℕ → ShipmentConfirmation → Actor → Request
  delivery_shown : ℕ → OperatorCommands.Evidence → Actor → Request
  claim_answer : ℕ → ClaimResponse → Actor → Request
  claim_repayment : ℕ → FundsInput → Actor → Request
  refund_shown : ℕ → RefundConfirmation → Actor → Request
  statement : ℕ → SettlementInput → Actor → Request
  statement_cash : ℕ → CashConfirmation → Actor → Request
  correction : ℕ → SettlementCorrection → Actor → Request
  job : Request
  job_end : Lease → Result (Unit {0}) → Request
  replayed : ℕ → Who → Request

unfoldable pub run : Env → Request → M (Unit {0})
run env (order_line v b) = ingest env v b >> pure tt
run env (validation i) = validate_received env i >> pure tt
run env (preparation i i_2) = prepare_payment env i i_2 >> pure tt
run env (approval i i_2 i_3 actor) = approve_payment env i i_2 i_3 actor >> pure tt
run env (dispatching i) = dispatch env i >> pure tt
run env (payment_answer i v) = after_call env i v >> pure tt
run env (reconciliation i v) = conclude env i v >> pure tt
run env (cancellation i actor) = cancel env i actor >> pure tt
run env (supplier_cancelled i) = confirm_supplier_cancel env i >> pure tt
run env (shipment v v_2) = add_shipment env v v_2 >> pure tt
run env (shipment_taken i) = shipment_synced i >> pure tt
run env (delivery i) = delivered env i >> pure tt
run env (claim i i_2 i_3 v v_2 v_3 actor b) = open_claim env i i_2 i_3 v v_2 v_3 actor b >> pure tt
run env (claim_taken i) = claim_submitted i >> pure tt
run env (response i v b actor b_2) = supplier_response env i v b actor b_2 >> pure tt
run env (recovery i v b i_2 actor) = confirm_supplier_recovery env i v b i_2 actor >> pure tt
run env (refund i v i_2 i_3 v_2 b) = request_refund env i v i_2 i_3 v_2 b >> pure tt
run env (refund_start i) = start_refund env i >> pure tt
run env (refund_answer i v) = after_refund_call env i v >> pure tt
run env (settlement i i_2 v v_2 v_3 v_4) = reconcile_settlement env i i_2 v v_2 v_3 v_4 >> pure tt
run env (settlement_cash i b i_2 actor) = confirm_settlement_cash env i b i_2 actor >> pure tt
run env (processing i) = process_received env i >> pure tt
run env (submission i) = start_submit env i >> pure tt
run env (submission_answer i i_2) = accept_submit env i i_2 >> pure tt
run env (listing v i b i_2 b_2) = create_listing env v i b i_2 b_2 >> pure tt
run env stock_check = inventory_guard env >> pure tt
run env (listing_failure i i_2) = listing_failed env i i_2 >> pure tt
run env (listing_success i i_2 b) = listing_confirmed i i_2 b >> pure tt
run env (order_withdrawal i a) = cancel_order env i a >> pure tt
run env (batch_withdrawal i a) = cancel_batch env i a >> pure tt
run env (withdrawal_answer i i_2 a) = confirm_cancellation env i i_2 a >> pure tt
run env risk_check = guard_cash_and_claims env >> pure tt
run env (batch v a) = create_batch env v a >> pure tt
run env (batch_download i a) = export_batch env i a >> pure tt
run env (batch_sent i v a) = mark_sent env i v a >> pure tt
run env (batch_answer i v a) = acknowledge env i v a >> pure tt
run env (batch_end i a) = resolve_batch i a >> pure tt
run env (evidence i v a) = note_evidence env i v a >> pure tt
run env (attestation i v a) = attest_evidence env i v a >> pure tt
run env (adoption i i_2 a) = adopt_verified_unsent_legacy env i i_2 a >> pure tt
run env (funding v a v_2) = funds env v a v_2 >> pure tt
run env (shipment_shown i v a) = confirm_shipment env i v a >> pure tt
run env (delivery_shown i v a) = confirm_delivery env i v a >> pure tt
run env (claim_answer i v a) = confirm_response env i v a >> pure tt
run env (claim_repayment i v a) = Cases.recovery env i v a >> pure tt
run env (refund_shown i v a) = confirm_refund env i v a >> pure tt
run env (statement i v a) = Settlements.settlement env i v a >> pure tt
run env (statement_cash i v a) = Settlements.settlement_cash env i v a >> pure tt
run env (correction i v a) = correct_settlement env i v a >> pure tt
run env job = take env >> pure tt
run env (job_end v v_2) = finish env v v_2 >> pure tt
run env (replayed i actor) = replay env i actor >> pure tt

-- The state after a sequence of transactions, each with its settings and time.
unfoldable pub history : List (Env × Request) → Db → Db
unfolding run
history [] db = db
history ((env, request) ∷ later) db = history later (commit (run env request) db).1
