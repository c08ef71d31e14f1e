-- ===== src/Store/Db.antt =====
-- The state of the database, and what the code takes from outside: the settings of
-- packages/infrastructure/settings.py, the clock, the hash and the cipher.
use saup.Base.{ℕ, List}
use saup.Domain.Address.{Address, Unicode}
use saup.Store.Keys.{Document}
use saup.Store.Rows.{
  Account, Journal, Posting, Reservation, Payment, Order, Listing, SupplierProduct, Supplier,
  Product, SupplierOrder, Shipment, Review, Job, AuditEvent, Command,
}
use saup.Store.CaseRows.{
  Claim, Refund, Settlement, Snapshot, Intent, Batch, BatchItem, Proof, Cancellation, Intervention,
  RefundEvidence, CancellationRecovery, ExcelProfile, Acknowledgement, Confirmation,
  EvidenceRevision, ConfirmationBinding, FileRow, OperationalReceipt, SettlementRevision,
  CancellationStatement, StatementRevision,
}

-- `next_id` is the next identifier: `uid()` is modelled by a counter, so that it is always new.
pub record Db : Type 0 where
  pub next_id : ℕ
  pub accounts : List Account
  pub journals : List Journal
  pub postings : List Posting
  pub reservations : List Reservation
  pub payments : List Payment
  pub orders : List Order
  pub listings : List Listing
  pub supplier_products : List SupplierProduct
  pub suppliers : List Supplier
  pub products : List Product
  pub supplier_orders : List SupplierOrder
  pub shipments : List Shipment
  pub reviews : List Review
  pub jobs : List Job
  pub audits : List AuditEvent
  pub commands : List Command
  pub claims : List Claim
  pub refunds : List Refund
  pub settlements : List Settlement
  pub intents : List Intent
  pub batches : List Batch
  pub batch_items : List BatchItem
  pub proofs : List Proof
  pub cancellations : List Cancellation
  pub interventions : List Intervention
  pub refund_evidence : List RefundEvidence
  pub cancellation_recoveries : List CancellationRecovery
  pub excel_profiles : List ExcelProfile
  pub acknowledgements : List Acknowledgement
  pub confirmations : List Confirmation
  pub evidence_revisions : List EvidenceRevision
  pub confirmation_bindings : List ConfirmationBinding
  pub receipts : List OperationalReceipt
  pub settlement_revisions : List SettlementRevision
  pub cancellation_statements : List CancellationStatement
  pub statement_revisions : List StatementRevision

-- `app_mode`
pub data AppMode : Type 0 where
  demo testing production : AppMode

-- Rates are in millionths, periods in seconds, `now` is `clock()`.
pub record Env : Type 0 where
  pub app_mode : AppMode
  pub min_margin : ℕ
  pub auto_payment_limit : ℕ
  pub daily_payment_limit : ℕ
  pub auto_refund_limit : ℕ
  pub safety_reserve : ℕ
  pub refund_reserve : ℕ
  pub tax_reserve : ℕ
  pub inventory_max_age_seconds : ℕ
  pub order_hold_seconds : ℕ
  pub max_job_attempts : ℕ
  pub claim_window : ℕ
  pub claim_min_samples : ℕ
  pub claim_warning_rate : ℕ
  pub claim_pause_rate : ℕ
  pub seller_loss_pause_rate : ℕ
  pub now : ℕ
  pub unicode : Unicode
  pub decrypt : ℕ → Address
  pub address_fingerprint : Address → ℕ
  pub snapshot_fingerprint : Snapshot → ℕ
  pub fingerprint : Document → ℕ
  pub workbook : ℕ → List FileRow → ℕ
  pub sha256 : ℕ → ℕ
  pub encrypt_file : ℕ → ℕ
  pub decrypt_file : ℕ → ℕ
