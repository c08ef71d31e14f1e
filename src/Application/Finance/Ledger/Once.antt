-- ===== src/Application/Finance/Ledger/Once.antt =====
-- A business key has one journal.
use saup.Base.{
  ℕ, ◌≤◌, ◌≡◌, refl, inl, inr, Bool, Bool-cases, arith, List, [], ◌∷◌, find?, Option, none,
  sum_where, eqb→eq,
}
use saup.Store.Db.{Db, Env}
use saup.Store.Keys.{JournalKind, JournalKey, JournalKey-discrete, journal_key_eq}
use saup.Store.Rows.{Account, Posting, Journal}
use saup.Store.Monad.Keeps.{
  Keeps, Outcome, Outcome-after, Outcome-gets, Outcome-raise_when, Outcome-found,
}
use saup.Application.Frame.{OnLedger}
use saup.Application.Finance.Ledger.{Entries, nonzero, sorted, post, write_journal, apply_entry}
use saup.Application.Finance.Ledger.Balance.{apply_entries}
use saup.Application.Finance.Ledger.Post.{find_journal, with_journal, write_journal_lem}

abbrev has_key : JournalKey → Journal → Bool
has_key key j = journal_key_eq j.business_key key

abbrev pub copies : JournalKey → List Journal → ℕ
copies key journals = sum_where (has_key key) (λ j. 1) journals

pub record Distinct (accounts : List Account) (postings : List Posting) (journals : List Journal)
    : Type 0 where
  pub once : (key : JournalKey) → copies key journals ≤ 1

-- No two journals share a business key.
abbrev pub HasDistinctKeys : Db → Type 0
HasDistinctKeys = OnLedger Distinct

pub apply_entries-journals :
    (i : ℕ) (entries : Entries) (db : Db) → (apply_entries i entries db).journals ≡ db.journals
unfolding apply_entry
apply_entries-journals i [] db = refl
apply_entries-journals i ((code, delta) ∷ entries) db =
    apply_entries-journals i entries (apply_entry i (code, delta) db)

none-copies :
    (key : JournalKey) (journals : List Journal)
    → find? (has_key key) journals ≡ none
    → copies key journals ≡ 0
none-copies key [] h = refl
none-copies key (j ∷ journals) h = ground (arith, none-copies key journals)

added-copies :
    (key other : JournalKey) (j : Journal) (journals : List Journal)
    → j.business_key ≡ key
    → find? (has_key key) journals ≡ none
    → copies other journals ≤ 1
    → copies other (j ∷ journals) ≤ 1
unfolding journal_key_eq
added-copies key other j journals named missing h =
    elim (Bool-cases (journal_key_eq j.business_key other)) [
      | inl same ↦ ground (
        arith,
        same,
        none-copies other journals,
        eqb→eq JournalKey-discrete j.business_key other same,
        named,
        missing,
      )
      | inr differs ↦ ground (arith, differs, h)
    ]

write_journal-distinct :
    (key : JournalKey) (kind : JournalKind) (entries : Entries) (hashed : ℕ) (o : Option ℕ)
    (db : Db)
    → HasDistinctKeys db
    → find_journal key db ≡ none
    → Outcome HasDistinctKeys (write_journal key kind entries hashed o db)
write_journal-distinct key kind entries hashed o db h missing =
    let mid = with_journal key kind hashed o db in
    let added : Journal = record {
      id = db.next_id;
      business_key = key;
      payload_hash = hashed;
      kind = kind;
      order_id = o;
    } in
    rw (write_journal_lem key kind entries hashed o db) (record {
      ledger = record {
        once = λ other.
            rw (apply_entries-journals db.next_id entries mid)
              (added-copies key other added db.journals refl missing (h.ledger.once other));
      };
    })

-- A journal is only written under a key that none has.
pub post-HasDistinctKeys :
    (env : Env) (key : JournalKey) (kind : JournalKind) (raw : Entries) (o : Option ℕ)
    → Keeps HasDistinctKeys (post env key kind raw o)
unfolding post
post-HasDistinctKeys env key kind raw o = record {
  at = λ db h.
      let entries = sorted (nonzero raw) in
      Outcome-after HasDistinctKeys _ _ _ db λ _. Outcome-after HasDistinctKeys _ _ _ db λ _.
        Outcome-gets HasDistinctKeys _ _ db (
          Outcome-found HasDistinctKeys (find_journal key db) _ _ db
            (λ missing. write_journal-distinct key kind entries _ o db h missing)
            (λ j found. Outcome-raise_when HasDistinctKeys _ _ db h));
}
