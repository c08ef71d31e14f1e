-- ===== src/Application/Operations/Repeats.antt =====
-- What `receipt` of packages/application/operations.py answers to a confirmation that it has recorded.
use saup.Base.{
  ℕ, ◌≡◌, refl, sym, subst, not, ◌==◌, if◌then◌else◌, eqb_refl, List, ◌∷◌, Option, some, find?,
  arith,
}
use saup.Domain.Errors.{ok, err, conflict, confirmation_conflict}
use saup.Domain.OperatorCommands.{Evidence}
use saup.Domain.SupplierState.{Actor}
use saup.Store.Db.{Db, Env}
use saup.Store.Keys.{
  ReceiptKind, Target, Namespace, Document, receipt_kind_eq, target_eq, ReceiptKind-discrete,
  Target-discrete,
}
use saup.Store.Rows.{user, external_receipt}
use saup.Store.CaseRows.{OperationalReceipt, receipt_recorded}
use saup.Store.Monad.{M, pure, gets, modify, fresh, on_some, raise_when, ◌>>=◌, ◌>>◌}
use saup.Store.Monad.Keeps.{Keeps, Keeps-pure, Keeps-gets, Keeps-on_some, Keeps-bind}
use saup.Store.Monad.Ensures.{
  Post, Ensures, Post-found, Post-passed, Ensures-after, Ensures-bind, Ensures-pure,
}
use saup.Application.Common.{audit}
use saup.Application.SupplierOperations.Terms.{intervention}
use saup.Application.Operations.{
  is_receipt, unused_evidence, target_order, insert_receipt, new_receipt, receipt,
}

-- The receipt is in the table, with its payload's hash and its identifier.
record IsKept (kind : ReceiptKind) (target : Target) (hash i : ℕ) (db : Db) : Type 0 where
  row : OperationalReceipt
  found : find? (is_receipt kind target) db.receipts ≡ some row
  hashed : row.payload_hash ≡ hash
  named : row.id ≡ i

IsKept-elsewhere :
    {kind : ReceiptKind} {target : Target} {hash i : ℕ} (f : Db → Db)
    → ((db : Db) → (f db).receipts ≡ db.receipts)
    → Keeps (IsKept kind target hash i) (modify f)
unfolding modify
IsKept-elsewhere {kind = kind} {target = target} f same = record {
  at = λ db h. record {
    row = h.row;
    found =
        subst (λ receipts. find? (is_receipt kind target) receipts ≡ some h.row) (sym (same db))
          h.found;
    hashed = h.hashed;
    named = h.named;
  };
}

own_receipt :
    (kind : ReceiptKind) (target : Target) (r : OperationalReceipt)
    (receipts : List OperationalReceipt)
    → r.kind ≡ kind
    → r.target_id ≡ target
    → find? (is_receipt kind target) (r ∷ receipts) ≡ some r
unfolding receipt_kind_eq target_eq
own_receipt kind target r receipts here same =
    rw (here, same, eqb_refl ReceiptKind-discrete kind, eqb_refl Target-discrete target) refl

module _ (env : Env) (kind : ReceiptKind) (target : Target) (namespace : Namespace) (e : Evidence)
    (payload : Document) (actor : Actor) where
  abbrev Kept : ℕ → Db → Type 0
  Kept i = IsKept kind target (env.fingerprint payload) i

  intervention-Kept :
      (i : ℕ) (key : _) (who : _) (o : Option ℕ) → Keeps (Kept i) (intervention key who o)
  unfolding intervention
  intervention-Kept i key who o =
      search
        (
          Keeps-pure,
          Keeps-gets,
          Keeps-on_some,
          Keeps-bind,
          IsKept-elsewhere {kind = kind} {target = target},
        )
        depth 12

  -- What follows the row.
  rest-Kept :
      (i : ℕ)
      → Ensures (Kept i) Kept (do
        order_id ← gets (target_order target)
        audit (external_receipt kind target) i (user actor.name)
        intervention (receipt_recorded kind target) (user actor.name) order_id
        pure i)
  rest-Kept i = Ensures-bind _ _ (Keeps-gets _) λ order_id.
      Ensures-bind _ _ (IsKept-elsewhere _ (λ db. refl))
        λ _. Ensures-bind _ _ (intervention-Kept i _ _ order_id) λ _. Ensures-pure i (λ db h. h)

  insert-Kept :
      Ensures
        (λ db. Unit {0})
        Kept
        (do
          i ← insert_receipt env kind target namespace e payload actor
          order_id ← gets (target_order target)
          audit (external_receipt kind target) i (user actor.name)
          intervention (receipt_recorded kind target) (user actor.name) order_id
          pure i)
  unfolding insert_receipt fresh modify pure ◌>>=◌
  insert-Kept = record {
    at = λ db _. (rest-Kept db.next_id).at _ (record {
      row = _;
      found = own_receipt kind target _ db.receipts refl refl;
      hashed = refl;
      named = refl;
    });
  }

  kept :
      (effect : M (Unit {0})) (db : Db)
      → Post Kept (receipt env kind target namespace e payload actor effect db)
  unfolding receipt new_receipt gets pure ◌>>=◌
  kept effect db =
      Post-found Kept (find? (is_receipt kind target) db.receipts) _ _ db
        ((Ensures-after {P = λ _. Unit {0}} (unused_evidence namespace e) _
            λ _. Ensures-after effect _ λ _. insert-Kept).at
          db tt)
        (λ r found.
          Post-passed Kept (not (r.payload_hash == env.fingerprint payload)) _ _ db
            λ same. record { row = r; found = found; hashed = ground (arith, same); named = refl })

-- What a recorded confirmation answers, whatever the effect.
answered :
    (env : Env) (kind : ReceiptKind) (target : Target) (namespace : Namespace) (e : Evidence)
    (payload : Document) (actor : Actor) (effect : M (Unit {0})) (hash i : ℕ) (db : Db)
    → IsKept kind target hash i db
    → receipt env kind target namespace e payload actor effect db ≡ (
        if hash == env.fingerprint payload
        then ok (i, db)
        else err (conflict confirmation_conflict))
unfolding receipt gets pure on_some raise_when ◌>>=◌
answered env kind target namespace e payload actor effect hash i db h =
    rw h.found (ground (arith, h.hashed, h.named))

-- A confirmation that was recorded for a target has its effect once: when it comes again, whoever makes
-- it and whatever its effect and its evidence would be, the same payload, by its hash, gives the
-- earlier receipt, and another one is a conflict. Neither changes the state.
pub receipt_again :
    (env later : Env) (kind : ReceiptKind) (target : Target) (namespace second : Namespace)
    (e f : Evidence) (payload other : Document) (actor by : Actor) (effect again : M (Unit {0}))
    (db after : Db) (i : ℕ)
    → receipt env kind target namespace e payload actor effect db ≡ ok (i, after)
    → receipt later kind target second f other by again after ≡ (
        if env.fingerprint payload == later.fingerprint other
        then ok (i, after)
        else err (conflict confirmation_conflict))
receipt_again env later kind target namespace second e f payload other actor by effect again db
      after i recorded =
    answered later kind target second f other by again (env.fingerprint payload) i after (
      subst (Post (Kept env kind target namespace e payload actor)) recorded
        (kept env kind target namespace e payload actor effect db))
