-- ===== src/Application/Operations/Settlements.antt =====
-- `settlement`, `settlement_cash` and `correct_settlement` of packages/application/operations.py.
pub mod Reversal
pub mod Amounts
pub mod Rebook
use saup.Base.{
  ℕ, ◌+◌, Bool, true, false, not, ◌&&◌, ◌||◌, ◌==◌, ltb, Option, some, none, List, [], ◌∷◌, find?,
  any, if◌then◌else◌, max, ℤ, pos, neg, ◌-ℤ◌, ltb_ℤ, pos_part,
}
use saup.Domain.Errors.{
  conflict, domain, validation, unexpected, settlement_not_found,
  multi_line_marketplace_order_unsupported, open_claim_reconciliation_required,
  cash_already_confirmed, stale_settlement_revision, settlement_receipt_amount_mismatch,
  confirmed_settlement_correction_blocked, settlement_reference_in_use,
  pending_refund_reconciliation, negative_settlement_requires_manual_reconciliation,
}
use saup.Domain.OperatorCommands.{
  SettlementInput, settlement_valid, CashConfirmation, cash_valid, SettlementCorrection,
  correction_valid,
}
use saup.Domain.OrderState.{OrderState, same}
use saup.Domain.SupplierState.{Actor, require, operator, admin}
use saup.Store.Db.{Db, Env}
use saup.Store.Keys.{
  marketplace_receivable, settlement_clearing, settlement_variance, JournalKind,
  settlement_reversal, adjustment_reversal, marketplace_adjustment, settlement_statement,
  Correction, reverse_statement, reverse_adjustment, new_adjustment, new_statement, correction_key,
  settlement_statement_recorded, cash_confirmed, on_row, statement_of, bank_evidence,
  statement_document, cash_document, correction_document, settlement_document, settlement_anomaly,
}
use saup.Store.Rows.{Order, user, settlement_corrected}
use saup.Store.CaseRows.{Claim, Settlement, SettlementRevision, settlement_correction}
use saup.Store.Monad.{
  M, pure, raise, gets, lift, modify, fresh, on_some, when, raise_when, ◌>>=◌, ◌>>◌,
}
use saup.Store.Tables.{find_settlement, update_settlement}
use saup.Application.Common.{audit, review, lock_treasury, execute_command}
use saup.Application.Finance.Ledger.{Entries, is_zero, post}
use saup.Application.SupplierOperations.Terms.{intervention, resolve_reviews}
use saup.Application.AfterSales.Settlements.{
  refunded, has_open_refund, is_refunded, expected_amount, adjustment_entries, statement_entries,
  reconcile_settlement, confirm_settlement_cash,
}
use saup.Application.Operations.{receipt, unused_evidence}
use saup.Application.Operations.Delivery.{get_order}

unfoldable pub get_settlement : ℕ → M Settlement
get_settlement i = do
  row ← gets (find_settlement i)
  on_some row (raise (domain settlement_not_found 404)) (λ r. pure r)

abbrev has_other_line : Order → Db → Bool
has_other_line o db =
    any
      (λ (x : Order).
        x.marketplace == o.marketplace && x.external_id == o.external_id && not (x.id == o.id))
      db.orders

-- A claim that is not refunded, or whose accepted amount the supplier has not paid back.
abbrev is_unfinished : ℕ → Claim → Bool
is_unfinished order_id c =
    c.order_id == order_id
    && (not (is_refunded c.status) || ltb c.supplier_recovery c.supplier_accepted_amount)

unfoldable pub settle_order : Env → SettlementInput → Order → Actor → M (Unit {0})
settle_order env cmd o actor = do
  unfinished ← gets (λ db. any (is_unfinished o.id) db.claims)
  raise_when unfinished (conflict open_claim_reconciliation_required)
  reconcile_settlement env o.id cmd.external_id (pos cmd.actual) cmd.adjustment (pos 0)
      (some (user actor.name))
  pure tt

abbrev settlement_of : ℕ → Db → Option ℕ
settlement_of order_id db =
    elim (find? (λ (r : Settlement). r.order_id == order_id) db.settlements) [
      | none ↦ none
      | some r ↦ some r.id
    ]

-- The receipt, and the order's settlement.
unfoldable pub settlement : Env → ℕ → SettlementInput → Actor → M (ℕ × Option ℕ)
settlement env order_id cmd actor = do
  lift (require actor operator)
  raise_when (not (settlement_valid cmd)) validation
  when (not (is_zero cmd.adjustment)) (lift (require actor admin))
  lock_treasury
  o ← get_order order_id
  shared ← gets (has_other_line o)
  raise_when shared (conflict multi_line_marketplace_order_unsupported)
  i ←
      receipt env settlement_statement_recorded (on_row o.id) (statement_of o.marketplace)
        cmd.evidence (statement_document cmd) actor (settle_order env cmd o actor)
  settled ← gets (settlement_of o.id)
  pure (i, settled)

-- `Operations.revision`: the highest revision of the settlement, or 0.
abbrev highest : ℕ → List SettlementRevision → ℕ
highest i [] = 0
highest i (r ∷ rows) =
    let rest = highest i rows in if r.settlement_id == i then max r.revision rest else rest

abbrev pub revision : ℕ → Db → ℕ
revision i db = highest i db.settlement_revisions

unfoldable pub take_cash : Env → CashConfirmation → Settlement → Actor → M (Unit {0})
take_cash env cmd row actor = do
  raise_when row.confirmed_cash (conflict cash_already_confirmed)
  current ← gets (revision row.id)
  raise_when (not (cmd.expected_revision == current)) (conflict stale_settlement_revision)
  raise_when (not (cmd.amount == row.actual)) (conflict settlement_receipt_amount_mismatch)
  confirm_settlement_cash env row.id true cmd.evidence.reference (user actor.name)

unfoldable pub settlement_cash : Env → ℕ → CashConfirmation → Actor → M ℕ
settlement_cash env settlement_id cmd actor = do
  lift (require actor admin)
  raise_when (not (cash_valid cmd)) validation
  lock_treasury
  row ← get_settlement settlement_id
  receipt env cash_confirmed (on_row row.id) bank_evidence cmd.evidence (cash_document cmd) actor
      (take_cash env cmd row actor)

abbrev pub reversal_entries : ℕ → ℕ → Entries
reversal_entries expected actual =
    (settlement_clearing, neg (pos actual))
    ∷ (marketplace_receivable, pos expected)
    ∷ (settlement_variance, pos actual -ℤ pos expected)
    ∷ []

-- The old statement and its adjustment are taken back, and the new ones are booked; a journal of zeros
-- is left out.
unfoldable pub rebook : Env → SettlementCorrection → Settlement → ℕ → ℕ → M (Unit {0})
rebook env cmd row next expected = do
  when (not (row.actual == 0) || not (row.expected == 0)) (
      post env (correction_key row.id next reverse_statement) settlement_reversal
        (reversal_entries row.expected row.actual) (some row.order_id))
  when (not (is_zero row.adjustment)) (
      post env (correction_key row.id next reverse_adjustment) adjustment_reversal
        (adjustment_entries (neg row.adjustment)) (some row.order_id))
  when (not (is_zero cmd.adjustment)) (
      post env (correction_key row.id next new_adjustment) marketplace_adjustment
        (adjustment_entries cmd.adjustment) (some row.order_id))
  when (not (cmd.actual == 0) || not (expected == 0)) (
      post env (correction_key row.id next new_statement) settlement_statement
        (statement_entries expected cmd.actual) (some row.order_id))

-- The settlement's new values, with a revision that keeps who changed them and why.
unfoldable pub record_correction :
    Env → SettlementCorrection → Settlement → ℕ → ℕ → Actor → M (Unit {0})
record_correction env cmd row next expected actor = do
  update_settlement row.id (λ r. record r {
    external_id = cmd.external_id;
    actual = cmd.actual;
    adjustment = cmd.adjustment;
    expected = expected;
    input_hash =
        env.fingerprint
          (settlement_document row.order_id cmd.external_id (pos cmd.actual) cmd.adjustment);
  })
  i ← fresh
  modify (λ db. record db {
    settlement_revisions =
        record {
          id = i;
          settlement_id = row.id;
          revision = next;
          reason = cmd.reason;
          reference = cmd.evidence.reference;
          evidence_hash = cmd.evidence.evidence_hash;
          actor = user actor.name;
        }
        ∷ db.settlement_revisions;
  })
  resolve_reviews row.id (settlement_anomaly ∷ []) (user actor.name)
  when (not (cmd.actual == expected)) (review env settlement_anomaly row.id)
  audit settlement_corrected row.id (user actor.name)
  intervention (settlement_correction i) (user actor.name) (some row.order_id)

-- The command's action; its result stands for the settlement and the new revision.
unfoldable pub apply_correction : Env → SettlementCorrection → Settlement → Order → Actor → M ℕ
apply_correction env cmd row o actor = do
  raise_when (row.confirmed_cash || not (same o.state OrderState.settlement_pending))
      (conflict confirmed_settlement_correction_blocked)
  current ← gets (revision row.id)
  raise_when (not (cmd.expected_revision == current)) (conflict stale_settlement_revision)
  unused_evidence (statement_of o.marketplace) cmd.evidence
  taken ← gets (λ db.
      any (λ (r : Settlement). r.external_id == cmd.external_id && not (r.id == row.id))
        db.settlements)
  raise_when taken (conflict settlement_reference_in_use)
  unsettled ← gets (has_open_refund o.id)
  raise_when unsettled (conflict pending_refund_reconciliation)
  given_back ← gets (refunded o.id)
  let due = expected_amount o given_back cmd.adjustment
  raise_when (ltb_ℤ due (pos 0)) (conflict negative_settlement_requires_manual_reconciliation)
  rebook env cmd row (current + 1) (pos_part due)
  record_correction env cmd row (current + 1) (pos_part due) actor
  pure (current + 1)

-- The scope "settlement.correct" with the key f"{row.id}:{reference}" is the scope 2 + row.id with the
-- reference as its key. An identifier has 36 characters.
unfoldable pub correct_settlement : Env → ℕ → SettlementCorrection → Actor → M ℕ
correct_settlement env settlement_id cmd actor = do
  lift (require actor admin)
  raise_when (not (correction_valid cmd)) validation
  lock_treasury
  row ← get_settlement settlement_id
  o ← get_order row.order_id
  execute_command env (2 + row.id) cmd.evidence.reference (37 + cmd.reference_length)
      (correction_document cmd) (apply_correction env cmd row o actor)
