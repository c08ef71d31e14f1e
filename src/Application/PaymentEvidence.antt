-- ===== src/Application/PaymentEvidence.antt =====
-- packages/application/payment_evidence.py: what an evidence's last revision says of it.
use saup.Base.{
  ℕ, Bool, not, ◌&&◌, ◌||◌, ◌==◌, ltb, Option, some, none, List, [], ◌∷◌, any, filter,
  if◌then◌else◌,
}
use saup.Store.Db.{Db}
use saup.Store.Keys.{category_eq, supplier_payment_evidence_correction}
use saup.Store.Rows.{Review}
use saup.Store.CaseRows.{EvidenceRevision, Proof}
use saup.Application.Common.{is_resolved}

-- The revision with the greatest number.
abbrev newest : List EvidenceRevision → Option EvidenceRevision
newest [] = none
newest (r ∷ rows) =
    let rest = newest rows in
    elim rest [ none ↦ some r | some q ↦ if ltb r.revision q.revision then some q else some r ]

pub record Effective : Type 0 where
  pub revision_id : Option ℕ
  pub version : ℕ
  pub reference : ℕ
  pub evidence_hash : ℕ

unfoldable pub effective_evidence : Proof → Db → Effective
effective_evidence proof db =
    elim (newest
      (filter (λ (r : EvidenceRevision). r.evidence_id == proof.id) db.evidence_revisions)) [
        | none ↦ record {
          revision_id = none;
          version = 0;
          reference = proof.reference;
          evidence_hash = proof.evidence_hash;
        }
        | some r ↦ record {
          revision_id = some r.id;
          version = r.revision;
          reference = r.reference;
          evidence_hash = r.evidence_hash;
        }
      ]

unfoldable pub correction_pending : ℕ → Db → Bool
correction_pending evidence_id db =
    any
      (λ (r : Review).
        r.entity_id == evidence_id
        && category_eq r.category supplier_payment_evidence_correction
        && not (is_resolved r.status))
      db.reviews

-- An evidence of another payment to the supplier.
abbrev is_rival : ℕ → ℕ → Proof → Bool
is_rival supplier_id payment_id proof =
    proof.supplier_id == supplier_id && not (proof.payment_id == payment_id)

-- Whether another payment's evidence, or a revision of one, has the reference.
unfoldable pub reference_in_use : ℕ → ℕ → ℕ → Db → Bool
reference_in_use supplier_id reference payment_id db =
    any (λ (e : Proof). is_rival supplier_id payment_id e && e.reference == reference) db.proofs
    || any
        (λ (r : EvidenceRevision).
          r.reference == reference
          && any (λ (e : Proof). is_rival supplier_id payment_id e && e.id == r.evidence_id)
              db.proofs)
        db.evidence_revisions
