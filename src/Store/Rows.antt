-- ===== src/Store/Rows.antt =====
-- The rows of the tables in packages/infrastructure/schema_v1.py that hold orders and money, with the columns
-- that the modelled code reads or writes. Amounts that a constraint keeps from being negative are
-- natural numbers, balances and deltas are integers, and a time is a number of seconds.
use saup.Base.{ℕ, Bool, Option, ℤ}
use saup.Domain.OrderState.{OrderState}
use saup.Domain.SupplierState.{SupplierState}
use saup.Store.Keys.{
  AccountCode, JournalKey, JournalKind, JobKey, JobKind, JobPayload, Category, ReceiptKind, Target,
}

-- Who acts: a part of the system, or the person with a user number.
pub data Who : Type 0 where
  system marketplace supplier : Who
  user : ℕ → Who

pub record Account : Type 0 where
  pub code : AccountCode
  pub balance : ℤ

pub record Journal : Type 0 where
  pub id : ℕ
  pub business_key : JournalKey
  pub payload_hash : ℕ
  pub kind : JournalKind
  pub order_id : Option ℕ

-- `account_id` names the account by its code.
pub record Posting : Type 0 where
  pub journal_id : ℕ
  pub account : AccountCode
  pub delta : ℤ

pub data ReservationStatus : Type 0 where
  held spent released : ReservationStatus

pub record Reservation : Type 0 where
  pub id : ℕ
  pub order_id : ℕ
  pub supplier_id : ℕ
  pub bank_amount : ℕ
  pub deposit_amount : ℕ
  pub status : ReservationStatus
  pub inventory_snapshot_at : ℕ

pub data PaymentStatus : Type 0 where
  pending evidence_pending manual_approval sending unknown succeeded cancelled : PaymentStatus

-- The reference of a receipt: the provider's, or the manual evidence's.
pub data Receipt : Type 0 where
  provider manual : ℕ → Receipt

pub record Payment : Type 0 where
  pub id : ℕ
  pub order_id : ℕ
  pub supplier_order_id : ℕ
  pub amount : ℕ
  pub destination_fingerprint : ℕ
  pub status : PaymentStatus
  pub approved_by : Option Who
  pub provider_reference : Option Receipt
  pub dispatched_at : Option ℕ

-- `pii_ciphertext` is the ciphertext of the address, `external_id` the marketplace's number.
pub record Order : Type 0 where
  pub id : ℕ
  pub marketplace : ℕ
  pub external_id : ℕ
  pub external_line_id : ℕ
  pub listing_id : ℕ
  pub quantity : ℕ
  pub gross_sale : ℕ
  pub discount : ℕ
  pub fee : ℕ
  pub promotion_cost : ℕ
  pub cost_snapshot : ℕ
  pub state : OrderState
  pub cancel_requested : Bool
  pub pii_ciphertext : ℕ
  pub input_hash : ℕ
  pub hold_until : ℕ
  pub delivered_at : Option ℕ
  pub human_interventions : ℕ

pub data DesiredState : Type 0 where
  active paused : DesiredState

pub data RemoteState : Type 0 where
  remote_unknown unconfirmed remote_active remote_paused : RemoteState

-- `fee_rate` is in millionths.
pub record Listing : Type 0 where
  pub id : ℕ
  pub supplier_product_id : ℕ
  pub marketplace : ℕ
  pub price : ℕ
  pub fee_rate : ℕ
  pub claim_allowance : ℕ
  pub promotion_cost : ℕ
  pub desired_state : DesiredState
  pub remote_state : RemoteState
  pub sync_revision : ℕ

pub data StockStatus : Type 0 where
  stock_unknown sold_out low available : StockStatus

pub record SupplierProduct : Type 0 where
  pub id : ℕ
  pub supplier_id : ℕ
  pub product_id : ℕ
  pub supplier_sku : ℕ
  pub cost : ℕ
  pub shipping : ℕ
  pub stock : Option ℕ
  pub stock_status : StockStatus
  pub last_inventory_at : ℕ

pub data Mode : Type 0 where
  excel demo_mode other_mode : Mode

-- `cutoff` is a time of day in minutes.
pub record Supplier : Type 0 where
  pub id : ℕ
  pub mode : Mode
  pub destination_fingerprint : Option ℕ
  pub destination_approved : Bool
  pub cutoff : ℕ
  pub claim_days : ℕ
  pub active : Bool

-- `tax_known` is `tax_type != "UNKNOWN"`, `in_season` is `season_state == "OPEN"`.
pub record Product : Type 0 where
  pub id : ℕ
  pub tax_known : Bool
  pub in_season : Bool

pub record SupplierOrder : Type 0 where
  pub id : ℕ
  pub order_id : ℕ
  pub external_id : Option ℕ
  pub status : SupplierState
  pub amount : ℕ

pub record Shipment : Type 0 where
  pub id : ℕ
  pub order_id : ℕ
  pub courier : ℕ
  pub tracking : ℕ
  pub marketplace_synced : Bool

pub data ReviewStatus : Type 0 where
  open_review resolved : ReviewStatus

-- `dedupe_key` is f"{category}:{entity_id}".
pub record Review : Type 0 where
  pub id : ℕ
  pub category : Category
  pub entity_id : ℕ
  pub status : ReviewStatus
  pub resolved_by : Option Who

pub data JobStatus : Type 0 where
  job_pending running done dead : JobStatus

pub record Job : Type 0 where
  pub id : ℕ
  pub business_key : JobKey
  pub kind : JobKind
  pub payload : JobPayload
  pub status : JobStatus
  pub attempts : ℕ
  pub next_run_at : ℕ
  pub lease_until : Option ℕ
  pub lease_token : Option ℕ

-- The events of the append-only trail that later code looks for, and those that it only appends.
pub data Event : Type 0 where
  order_received order_transition order_held order_imported_from_file : Event
  supplier_order_transition supplier_order_created supplier_payment_prepared : Event
  payment_approved ledger_posted cash_reserved cash_reservation_released : Event
  supplier_payment_created cancellation_requested supplier_cancellation_confirmed : Event
  supplier_cancellation_requested supplier_batch_invalidated review_reopened : Event
  review_resolved listing_paused_event listing_sync_confirmed local_listing_created : Event
  marketplace_shipment_updated supplier_order_intent_created claim_opened : Event
  supplier_claim_submitted supplier_claim_response supplier_recovery_confirmed : Event
  refund_approved refund_created settlement_reconciled settlement_cash_confirmed : Event
  job_failed job_replay_requested product_price_changed : Event
  supplier_batch_created supplier_batch_file_exported supplier_batch_sent : Event
  supplier_order_rejected supplier_order_accepted supplier_batch_acknowledged : Event
  supplier_payment_evidence_rejected supplier_payment_evidence_recorded : Event
  supplier_payment_confirmation_blocked supplier_payment_confirmed : Event
  supplier_legacy_adopted_unsent supplier_batch_resolved : Event
  settlement_corrected : Event
  external_receipt : ReceiptKind → Target → Event

pub record AuditEvent : Type 0 where
  pub event : Event
  pub entity_id : ℕ
  pub actor : Who

pub record Command : Type 0 where
  pub scope : ℕ
  pub key : ℕ
  pub payload_hash : ℕ
  pub result : ℕ
