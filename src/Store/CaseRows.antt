-- ===== src/Store/CaseRows.antt =====
-- The rows of the tables that hold what comes after an order and around a supplier's batch, in
-- packages/infrastructure/schema_v1.py to schema_v5.py.
use saup.Base.{ℕ, Bool, Option, ℤ}
use saup.Domain.SupplierState.{SupplierState}
use saup.Domain.Address.{Address}
use saup.Domain.OperatorCommands.{CorrectionReason}
use saup.Domain.SupplierCommands.{PaymentPath, Method, RejectionReason}
use saup.Store.Keys.{ReceiptKind, Target, Namespace}
use saup.Store.Rows.{Who}

-- The eleven categories, those of `QUALITY` and those that go to a person first.
pub data ClaimCategory : Type 0 where
  rotten broken bruised wrong_item missing_weight delivery_delay change_of_mind : ClaimCategory
  taste_complaint address_mistake missing_item other_claim unlisted : ClaimCategory

pub data ClaimStatus : Type 0 where
  ready manual_review evidence_required supplier_review refund_eligible : ClaimStatus
  partially_refunded fully_refunded : ClaimStatus

-- The set of pictures, one flag for each member of `EVIDENCE`, and one for any other text.
pub record Evidence : Type 0 where
  pub parcel_label : Bool
  pub entire_contents : Bool
  pub damage_closeup : Bool
  pub foreign : Bool

pub data Response : Type 0 where
  accepted_response rejected_response : Response

pub record Claim : Type 0 where
  pub id : ℕ
  pub order_id : ℕ
  pub external_id : ℕ
  pub category : ClaimCategory
  pub status : ClaimStatus
  pub evidence : Evidence
  pub deadline : ℕ
  pub requested_amount : ℕ
  pub supplier_response : Option Response
  pub supplier_accepted_amount : ℕ
  pub supplier_recovery : ℕ
  pub customer_refund : ℕ

pub data RefundStatus : Type 0 where
  pending sending unknown succeeded manual_approval evidence_pending failed : RefundStatus

pub record Refund : Type 0 where
  pub id : ℕ
  pub claim_id : ℕ
  pub order_id : ℕ
  pub business_key : ℕ
  pub amount : ℕ
  pub status : RefundStatus
  pub provider_reference : Option ℕ

pub record Settlement : Type 0 where
  pub id : ℕ
  pub order_id : ℕ
  pub external_id : ℕ
  pub expected : ℕ
  pub actual : ℕ
  pub adjustment : ℤ
  pub input_hash : ℕ
  pub confirmed_cash : Bool

-- The terms that were frozen when the supplier order was made.
pub record Snapshot : Type 0 where
  pub supplier_sku : ℕ
  pub supplier_product_id : ℕ
  pub unit_cost : ℕ
  pub shipping : ℕ
  pub quantity : ℕ
  pub amount : ℕ
  pub address_hash : ℕ
  pub input_hash : ℕ
  pub destination_fingerprint : Option ℕ
  pub marketplace_order_id : ℕ

pub record Intent : Type 0 where
  pub supplier_order_id : ℕ
  pub supplier_id : ℕ
  pub amount : ℕ
  pub snapshot : Snapshot
  pub snapshot_hash : ℕ

pub data BatchStatus : Type 0 where
  file_ready exported sent acknowledged rejected partial invalidated : BatchStatus
  cancel_pending cancelled batch_resolved : BatchStatus

pub record Batch : Type 0 where
  pub id : ℕ
  pub supplier_id : ℕ
  pub payment_path : PaymentPath
  pub status : BatchStatus
  pub order_count : ℕ
  pub file_hash : ℕ
  pub file_ciphertext : ℕ
  pub exported_at : Option ℕ
  pub exported_by : Option Who
  pub sent_at : Option ℕ
  pub sent_by : Option Who
  pub send_hash : Option ℕ
  pub acknowledged_at : Option ℕ
  pub acknowledged_by : Option Who

pub data AckStatus : Type 0 where
  ack_pending ack_accepted ack_rejected ack_review : AckStatus

-- `rejection_reason`: the supplier's, or that the terms changed.
pub data LineReason : Type 0 where
  rejected_for : RejectionReason → LineReason
  terms_changed : LineReason

pub record BatchItem : Type 0 where
  pub batch_id : ℕ
  pub supplier_order_id : ℕ
  pub supplier_id : ℕ
  pub position : ℕ
  pub active : Bool
  pub snapshot_hash : ℕ
  pub ack_status : AckStatus
  pub accepted_amount : Option ℕ
  pub rejection_reason : Option LineReason

-- A line of the file that a supplier gets.
pub record FileRow : Type 0 where
  pub supplier_order_id : ℕ
  pub marketplace_order_id : ℕ
  pub supplier_sku : ℕ
  pub quantity : ℕ
  pub address : Address

-- A row of `supplier_excel_profiles`; `mapping` names the columns.
pub record ExcelProfile : Type 0 where
  pub id : ℕ
  pub supplier_id : ℕ
  pub mapping : ℕ

-- A row of `supplier_batch_acknowledgements`.
pub record Acknowledgement : Type 0 where
  pub batch_id : ℕ
  pub payload_hash : ℕ
  pub reference : ℕ
  pub actor : Who

-- A row of `supplier_payment_evidence`.
pub record Proof : Type 0 where
  pub id : ℕ
  pub payment_id : ℕ
  pub supplier_id : ℕ
  pub method : Method
  pub amount : ℕ
  pub bank_amount : ℕ
  pub deposit_amount : ℕ
  pub destination_fingerprint : ℕ
  pub reference : ℕ
  pub evidence_hash : ℕ
  pub payload_hash : ℕ
  pub recorded_by : Who

-- A row of `supplier_payment_confirmations`.
pub record Confirmation : Type 0 where
  pub id : ℕ
  pub evidence_id : ℕ
  pub payment_id : ℕ
  pub payload_hash : ℕ
  pub actor : Who
  pub amount : ℕ
  pub destination_fingerprint : ℕ
  pub reference : ℕ

-- A row of `supplier_payment_evidence_revisions`.
pub record EvidenceRevision : Type 0 where
  pub id : ℕ
  pub evidence_id : ℕ
  pub revision : ℕ
  pub reference : ℕ
  pub evidence_hash : ℕ

-- A row of `supplier_evidence_confirmation_bindings`.
pub record ConfirmationBinding : Type 0 where
  pub confirmation_id : ℕ
  pub revision_id : ℕ

pub data CancellationStatus : Type 0 where
  request_pending confirmed_local confirmed financial_review : CancellationStatus

pub record Cancellation : Type 0 where
  pub supplier_order_id : ℕ
  pub status : CancellationStatus
  pub from_state : SupplierState
  pub requested_by : Who
  pub confirmation_hash : Option ℕ
  pub confirmed_by : Option Who
  pub confirmed_at : Option ℕ
  pub reference : Option ℕ

-- A row of `operational_interventions`; `business_key` is f"{prefix}:{id}".
pub data InterventionKey : Type 0 where
  batch_created file_exported file_sent acknowledged : ℕ → ℕ → InterventionKey
  evidence_recorded payment_confirmed legacy_adopted : ℕ → InterventionKey
  payment_approved cancel_request cancel_confirmed claim_response recovery_confirmed :
      ℕ → InterventionKey
  refund_approval settlement_reconciled settlement_cash settlement_correction : ℕ → InterventionKey
  receipt_recorded : ReceiptKind → Target → InterventionKey

pub record Intervention : Type 0 where
  pub business_key : InterventionKey
  pub actor : Who
  pub order_id : Option ℕ

-- A row of `marketplace_refund_evidence`.
pub record RefundEvidence : Type 0 where
  pub order_id : ℕ
  pub marketplace : ℕ
  pub external_order_id : ℕ
  pub evidence_hash : ℕ

-- A row of `supplier_cancellation_recoveries`.
pub record CancellationRecovery : Type 0 where
  pub payment_id : ℕ
  pub supplier_id : ℕ
  pub reference : ℕ
  pub evidence_hash : ℕ
  pub amount : ℕ

-- A row of `operational_receipts`.
pub record OperationalReceipt : Type 0 where
  pub id : ℕ
  pub kind : ReceiptKind
  pub target_id : Target
  pub namespace : Namespace
  pub reference : ℕ
  pub evidence_hash : ℕ
  pub payload_hash : ℕ
  pub actor : Who

-- A row of `settlement_revisions`.
pub record SettlementRevision : Type 0 where
  pub id : ℕ
  pub settlement_id : ℕ
  pub revision : ℕ
  pub reason : CorrectionReason
  pub reference : ℕ
  pub evidence_hash : ℕ
  pub actor : Who

-- A row of `marketplace_cancellation_statements`.
pub record CancellationStatement : Type 0 where
  pub order_id : ℕ
  pub evidence_hash : ℕ

-- A row of `cancellation_statement_revisions`.
pub record StatementRevision : Type 0 where
  pub order_id : ℕ
  pub evidence_hash : ℕ
