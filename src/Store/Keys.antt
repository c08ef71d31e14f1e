-- ===== src/Store/Keys.antt =====
-- The texts that the code builds and compares: account codes, business keys, categories, and the
-- documents that it fingerprints. An identifier is a number. A key such as f"refund:{id}" is a
-- constructor with its identifiers: the prefixes differ, and no identifier holds a colon.
use saup.Base.{ℕ, Bool, List, Option, ℤ, eqb, ℕ_discrete}
use saup.Domain.Errors.{Code, Code-discrete}
use saup.Domain.SupplierCommands.{
  BatchCreate, MarkSent, Acknowledge, EvidenceRecord, EvidenceConfirm,
}
use saup.Domain.OperatorCommands.{
  FundsInput, ShipmentConfirmation, ClaimResponse, RefundConfirmation, SettlementInput,
  CashConfirmation, SettlementCorrection,
}
use saup.Domain.OperatorCommands

-- The kinds of receipts, the texts that say what a receipt is of (an identifier, "BANK", or an identifier
-- with the hash of a reference), and the namespaces in which a reference is used once.
pub data ReceiptKind : Type 0 where
  opening_bank_confirmed supplier_deposit_confirmed shipment_externally_confirmed : ReceiptKind
  delivery_confirmed claim_response_confirmed claim_recovery_confirmed : ReceiptKind
  customer_refund_confirmed settlement_statement_recorded cash_confirmed : ReceiptKind

pub data Target : Type 0 where
  whole_bank : Target
  on_row : ℕ → Target
  on_reference : ℕ → ℕ → Target

pub data Namespace : Type 0 where
  bank_evidence claim_response_evidence : Namespace
  shipment_of delivery_of refund_of statement_of recovery_from : ℕ → Namespace

unfoldable pub ReceiptKind-discrete : Discrete ReceiptKind
ReceiptKind-discrete = hlevel

unfoldable pub Target-discrete : Discrete Target
Target-discrete = hlevel ℕ_discrete

Namespace-discrete : Discrete Namespace
Namespace-discrete = hlevel ℕ_discrete

unfoldable pub receipt_kind_eq : ReceiptKind → ReceiptKind → Bool
unfolding ReceiptKind-discrete
receipt_kind_eq = eqb ReceiptKind-discrete

unfoldable pub target_eq : Target → Target → Bool
unfolding Target-discrete ℕ_discrete
target_eq = eqb Target-discrete

unfoldable pub namespace_eq : Namespace → Namespace → Bool
unfolding Namespace-discrete ℕ_discrete
namespace_eq = eqb Namespace-discrete

-- The codes of the ledger's accounts; `deposit s` is f"DEPOSIT:{s}".
pub data AccountCode : Type 0 where
  control bank equity supplier_expense marketplace_receivable revenue marketplace_fees : AccountCode
  promotion_expense refund_expense supplier_recovery settlement_clearing : AccountCode
  settlement_variance : AccountCode
  deposit : ℕ → AccountCode

AccountCode-discrete : Discrete AccountCode
AccountCode-discrete = hlevel ℕ_discrete

unfoldable pub account_eq : AccountCode → AccountCode → Bool
unfolding AccountCode-discrete ℕ_discrete
account_eq = eqb AccountCode-discrete

pub data JournalKind : Type 0 where
  supplier_payment sale_recognized supplier_recovery_received customer_refund : JournalKind
  marketplace_adjustment settlement_statement bank_settlement : JournalKind
  opening_bank supplier_deposit_paid settlement_reversal adjustment_reversal : JournalKind

-- The four journals of a correction.
pub data Correction : Type 0 where
  reverse_statement reverse_adjustment new_adjustment new_statement : Correction

unfoldable pub Correction-discrete : Discrete Correction
Correction-discrete = hlevel

pub data JournalKey : Type 0 where
  payment_key sale_key refund_key adjustment_key settlement_key : ℕ → JournalKey
  bank_settlement_key : ℕ → JournalKey
  recovery_key : ℕ → ℕ → JournalKey
  receipt_key : ReceiptKind → Target → JournalKey
  correction_key : ℕ → ℕ → Correction → JournalKey

pub JournalKey-discrete : Discrete JournalKey
JournalKey-discrete =
    hlevel (ℕ_discrete, ReceiptKind-discrete, Target-discrete, Correction-discrete)

unfoldable pub journal_key_eq : JournalKey → JournalKey → Bool
unfolding JournalKey-discrete ReceiptKind-discrete Target-discrete Correction-discrete ℕ_discrete
journal_key_eq = eqb JournalKey-discrete

pub data JobKind : Type 0 where
  order_process supplier_submit supplier_cancel payment_execute marketplace_shipment : JobKind
  listing_sync file_import claim_submit refund_execute notification_send unknown_kind : JobKind

JobKind-discrete : Discrete JobKind
JobKind-discrete = hlevel

unfoldable pub job_kind_eq : JobKind → JobKind → Bool
unfolding JobKind-discrete
job_kind_eq = eqb JobKind-discrete

pub data JobKey : Type 0 where
  order_job supplier_job payment_job cancel_job shipment_job claim_job refund_job : ℕ → JobKey
  notify_job import_job : ℕ → JobKey
  listing_job : ℕ → ℕ → JobKey

JobKey-discrete : Discrete JobKey
JobKey-discrete = hlevel ℕ_discrete

unfoldable pub job_key_eq : JobKey → JobKey → Bool
unfolding JobKey-discrete ℕ_discrete
job_key_eq = eqb JobKey-discrete

-- The categories of reviews: a code that held an order, or a text of its own.
pub data Category : Type 0 where
  by_code : Code → Category
  job_dead_letter supplier_file_ack_required supplier_payment_preparation_blocked : Category
  payment_approval payment_result_unknown payment_not_found_reverify_required : Category
  cancellation_after_payment late_cancellation cancellation_after_supplier_order : Category
  supplier_cancellation_required supplier_cancellation_financial_review : Category
  price_sync_failed supplier_payment_evidence_correction : Category
  ambiguous_claim claim_evidence_required supplier_rejected_claim : Category
  refund_approval refund_result_unknown settlement_anomaly : Category
  inventory_stale_or_unavailable product_metadata_reverify price_spike : Category
  cash_capacity_exhausted claim_rate_warning claim_loss_kill_switch : Category
  line_after_cancellation : Category

Category-discrete : Discrete Category
Category-discrete = hlevel Code-discrete

unfoldable pub category_eq : Category → Category → Bool
unfolding Category-discrete Code-discrete
category_eq = eqb Category-discrete

-- The payload of a queued job; that of a listing says whether it is to be active.
pub data JobPayload : Type 0 where
  by_id : ℕ → JobPayload
  listing_payload : ℕ → ℕ → Bool → ℕ → JobPayload
  notice_payload : Category → ℕ → ℕ → JobPayload

-- What the code hashes.
pub data Document : Type 0 where
  job_document : JobPayload → Document
  journal_document : JournalKind → List (AccountCode × ℤ) → Option ℕ → Document
  settlement_document : ℕ → ℕ → ℤ → ℤ → Document
  confirmation_document : ℕ → Document
  batch_document : BatchCreate → Document
  sending_document : MarkSent → Document
  acknowledgement_document : Acknowledge → Document
  evidence_document : EvidenceRecord → Document
  payment_document : EvidenceConfirm → Document
  reference_document : ℕ → Document
  tracking_document : ℕ → ℕ → Document
  funds_document : FundsInput → Document
  shipment_document : ShipmentConfirmation → Document
  delivery_document : OperatorCommands.Evidence → Document
  response_document : ClaimResponse → Document
  refund_document : RefundConfirmation → Document
  statement_document : SettlementInput → Document
  cash_document : CashConfirmation → Document
  correction_document : SettlementCorrection → Document
