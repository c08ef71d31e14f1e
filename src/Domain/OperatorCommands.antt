-- ===== src/Domain/OperatorCommands.antt =====
-- The commands of packages/domain/operations.py that confirm what happened outside. `confirmed` has to
-- be true in each, so that it is not a field; a reference that matches its pattern is a number.
use saup.Base.{ℕ, Bool, ◌&&◌, leb, ℤ, abs}
use saup.Domain.SupplierCommands.{positive_money, money}

pub record Evidence : Type 0 where
  pub reference : ℕ
  pub evidence_hash : ℕ

pub record FundsInput : Type 0 where
  pub evidence : Evidence
  pub amount : ℕ

abbrev pub funds_valid : FundsInput → Bool
funds_valid cmd = positive_money cmd.amount

pub record ShipmentConfirmation : Type 0 where
  pub evidence : Evidence
  pub marketplace : ℕ
  pub external_order_id : ℕ
  pub external_line_id : ℕ
  pub tracking_hash : ℕ

pub record ClaimResponse : Type 0 where
  pub evidence : Evidence
  pub accepted : Bool
  pub amount : ℕ

abbrev pub response_valid : ClaimResponse → Bool
response_valid cmd = money cmd.amount

pub record RefundConfirmation : Type 0 where
  pub evidence : Evidence
  pub order_id : ℕ
  pub claim_id : ℕ
  pub amount : ℕ
  pub marketplace : ℕ

abbrev pub refund_valid : RefundConfirmation → Bool
refund_valid cmd = positive_money cmd.amount

pub record SettlementInput : Type 0 where
  pub evidence : Evidence
  pub external_id : ℕ
  pub actual : ℕ
  pub adjustment : ℤ

abbrev pub settlement_valid : SettlementInput → Bool
settlement_valid cmd = money cmd.actual && leb (abs cmd.adjustment) 1000000000

pub record CashConfirmation : Type 0 where
  pub evidence : Evidence
  pub amount : ℕ
  pub expected_revision : ℕ

abbrev pub cash_valid : CashConfirmation → Bool
cash_valid cmd = money cmd.amount

pub data CorrectionReason : Type 0 where
  wrong_amount wrong_reference wrong_adjustment replacement_statement : CorrectionReason

-- `reference_length` is `len(reference)`.
pub record SettlementCorrection : Type 0 where
  pub evidence : Evidence
  pub reference_length : ℕ
  pub external_id : ℕ
  pub actual : ℕ
  pub adjustment : ℤ
  pub expected_revision : ℕ
  pub reason : CorrectionReason

abbrev pub correction_valid : SettlementCorrection → Bool
correction_valid cmd =
    money cmd.actual
    && leb (abs cmd.adjustment) 1000000000
    && leb 1 cmd.reference_length
    && leb cmd.reference_length 160
