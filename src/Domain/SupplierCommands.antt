-- ===== src/Domain/SupplierCommands.antt =====
-- The commands of packages/domain/supplier_operations.py, with the checks of their schemas. A reference
-- that matches its pattern is a number.
use saup.Base.{ℕ, ◌+◌, Bool, true, ◌&&◌, ◌==◌, ltb, leb, Option, List, length}

pub data RejectionReason : Type 0 where
  sold_out price_changed sku_not_found order_not_accepted : RejectionReason
  delivery_unavailable cutoff_exceeded other_reason : RejectionReason

pub data PaymentPath : Type 0 where
  manual_evidence demo_provider : PaymentPath

pub data SendChannel : Type 0 where
  email portal messenger by_hand other_channel : SendChannel

pub data Method : Type 0 where
  supplier_deposit manual_transfer provider_receipt other_approved_method : Method

-- `PositiveMoney` and `Money`
abbrev pub positive_money : ℕ → Bool
positive_money n = ltb 0 n && leb n 1000000000000

abbrev pub money : ℕ → Bool
money n = leb n 1000000000000

pub record BatchCreate : Type 0 where
  pub supplier_id : ℕ
  pub profile_id : ℕ
  pub supplier_order_ids : List ℕ
  pub idempotency_key : ℕ
  pub key_length : ℕ
  pub payment_path : PaymentPath

abbrev pub batch_create_valid : BatchCreate → Bool
batch_create_valid cmd =
    leb 1 (length cmd.supplier_order_ids) && leb (length cmd.supplier_order_ids) 500

pub record MarkSent : Type 0 where
  pub send_channel : SendChannel
  pub send_reference : ℕ
  pub file_hash : ℕ

pub record RejectedLine : Type 0 where
  pub supplier_order_id : ℕ
  pub reason : RejectionReason

pub record ReportedChange : Type 0 where
  pub supplier_order_id : ℕ
  pub amount : Option ℕ
  pub shipping : Option ℕ
  pub quantity : Option ℕ
  pub sku : Option ℕ
  pub destination_changed : Bool

pub record Acknowledge : Type 0 where
  pub accepted_order_ids : List ℕ
  pub rejected : List RejectedLine
  pub reported_changes : List ReportedChange
  pub reference : ℕ

abbrev pub acknowledge_valid : Acknowledge → Bool
acknowledge_valid cmd =
    leb (length cmd.accepted_order_ids) 500
    && (leb (length cmd.rejected) 500 && leb (length cmd.reported_changes) 500)

pub record EvidenceRecord : Type 0 where
  pub supplier_id : ℕ
  pub method : Method
  pub amount : ℕ
  pub bank_amount : ℕ
  pub deposit_amount : ℕ
  pub destination_fingerprint : ℕ
  pub reference : ℕ
  pub evidence_hash : ℕ

-- `allocations`: the parts add up, and the method says which of them may be paid.
abbrev pub method_fits : Method → ℕ → ℕ → Bool
method_fits supplier_deposit bank_amount deposit_amount = bank_amount == 0
method_fits manual_transfer bank_amount deposit_amount = deposit_amount == 0
method_fits _ bank_amount deposit_amount = true

unfoldable pub evidence_valid : EvidenceRecord → Bool
evidence_valid cmd =
    positive_money cmd.amount
    && money cmd.bank_amount
    && money cmd.deposit_amount
    && cmd.bank_amount + cmd.deposit_amount == cmd.amount
    && method_fits cmd.method cmd.bank_amount cmd.deposit_amount

pub record EvidenceConfirm : Type 0 where
  pub evidence_revision_id : Option ℕ
  pub amount : ℕ
  pub destination_fingerprint : ℕ
  pub reference : ℕ
