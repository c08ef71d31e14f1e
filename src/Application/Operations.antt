-- ===== src/Application/Operations.antt =====
-- packages/application/operations.py: what operators confirm of the outside. `receipt` records a
-- confirmation once, with the evidence that no other record has, and runs its effect with it.
pub mod Funds
pub mod Delivery
pub mod Cases
pub mod Settlements
pub mod Repeats
use saup.Base.{ℕ, Bool, not, ◌&&◌, ◌||◌, ◌==◌, Option, some, none, ◌∷◌, find?, any}
use saup.Domain.Errors.{conflict, external_evidence_already_used, confirmation_conflict}
use saup.Domain.OperatorCommands.{Evidence}
use saup.Domain.SupplierState.{Actor}
use saup.Store.Db.{Db, Env}
use saup.Store.Keys.{
  ReceiptKind, Target, on_row, Namespace, Document, receipt_kind_eq, target_eq, namespace_eq,
}
use saup.Store.Rows.{Order, user, external_receipt}
use saup.Store.CaseRows.{
  OperationalReceipt, SettlementRevision, CancellationStatement, StatementRevision, Proof,
  EvidenceRevision, RefundEvidence, CancellationRecovery, receipt_recorded,
}
use saup.Store.Monad.{M, pure, gets, modify, fresh, on_some, raise_when, ◌>>=◌, ◌>>◌}
use saup.Store.Tables.{find_order}
use saup.Application.Common.{audit}
use saup.Application.SupplierOperations.Terms.{intervention}

abbrev pub is_receipt : ReceiptKind → Target → OperationalReceipt → Bool
is_receipt kind target r = receipt_kind_eq r.kind kind && target_eq r.target_id target

-- Another receipt has the evidence, or the reference in the namespace.
abbrev in_receipts : Namespace → Evidence → Db → Bool
in_receipts namespace e db =
    any
      (λ (r : OperationalReceipt).
        r.evidence_hash == e.evidence_hash
        || (namespace_eq r.namespace namespace && r.reference == e.reference))
      db.receipts

-- One of the other tables has the evidence.
abbrev in_records : ℕ → Db → Bool
in_records hash db =
    any (λ (r : CancellationRecovery). r.evidence_hash == hash) db.cancellation_recoveries
    || any (λ (r : Proof). r.evidence_hash == hash) db.proofs
    || any (λ (r : EvidenceRevision). r.evidence_hash == hash) db.evidence_revisions
    || any (λ (r : RefundEvidence). r.evidence_hash == hash) db.refund_evidence
    || any (λ (r : CancellationStatement). r.evidence_hash == hash) db.cancellation_statements
    || any (λ (r : SettlementRevision). r.evidence_hash == hash) db.settlement_revisions
    || any (λ (r : StatementRevision). r.evidence_hash == hash) db.statement_revisions

unfoldable pub unused_evidence : Namespace → Evidence → M (Unit {0})
unused_evidence namespace e = do
  used ← gets (in_receipts namespace e)
  raise_when used (conflict external_evidence_already_used)
  recorded ← gets (in_records e.evidence_hash)
  raise_when recorded (conflict external_evidence_already_used)

-- `s.get(Order, target)`: the order that has the text as its identifier.
abbrev pub target_order : Target → Db → Option ℕ
target_order (on_row i) db = elim (find_order i db) [ none ↦ none | some o ↦ some o.id ]
target_order _ db = none

unfoldable pub insert_receipt :
    Env → ReceiptKind → Target → Namespace → Evidence → Document → Actor → M ℕ
insert_receipt env kind target namespace e payload actor = do
  i ← fresh
  modify (λ db. record db {
    receipts =
        record {
          id = i;
          kind = kind;
          target_id = target;
          namespace = namespace;
          reference = e.reference;
          evidence_hash = e.evidence_hash;
          payload_hash = env.fingerprint payload;
          actor = user actor.name;
        }
        ∷ db.receipts;
  })
  pure i

-- A confirmation that nobody made yet. In the trail, the target stands with the event.
unfoldable pub new_receipt :
    Env → ReceiptKind → Target → Namespace → Evidence → Document → Actor → M (Unit {0}) → M ℕ
new_receipt env kind target namespace e payload actor effect = do
  unused_evidence namespace e
  effect
  i ← insert_receipt env kind target namespace e payload actor
  order_id ← gets (target_order target)
  audit (external_receipt kind target) i (user actor.name)
  intervention (receipt_recorded kind target) (user actor.name) order_id
  pure i

-- The receipt's identifier; a repeated confirmation gives it again.
unfoldable pub receipt :
    Env → ReceiptKind → Target → Namespace → Evidence → Document → Actor → M (Unit {0}) → M ℕ
receipt env kind target namespace e payload actor effect = do
  old ← gets (λ db. find? (is_receipt kind target) db.receipts)
  on_some old (new_receipt env kind target namespace e payload actor effect) (λ r. do
    raise_when (not (r.payload_hash == env.fingerprint payload)) (conflict confirmation_conflict)
    pure r.id)
