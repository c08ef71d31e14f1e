-- ===== src/Application/Finance/Ledger/Again.antt =====
-- A business key that is posted again.
use saup.Base.{
  ℕ, List, ◌∷◌, ◌≡◌, refl, ◌∙◌, ap, subst, Bool, true, false, not, ◌||◌, ◌==◌, ltb, length, find?,
  Option, Option-cases, some, inl, inr, arith, eqb_refl,
}
use saup.Domain.Errors.{Result, ok, err}
use saup.Store.Db.{Db, Env}
use saup.Store.Keys.{JournalKind, JournalKey, JournalKey-discrete, journal_key_eq, journal_document}
use saup.Store.Rows.{Journal}
use saup.Store.Monad.{◌>>=◌}
use saup.Application.Finance.Ledger.{Entries, nonzero, sorted, total, is_zero, over_limit, post}
use saup.Application.Finance.Ledger.Post.{find_journal, with_journal, written, write_journal_lem}
use saup.Application.Finance.Ledger.Once.{apply_entries-journals}

abbrev pub is_refused : {A : Type 0} → Result A → Bool
is_refused (ok a) = false
is_refused (err e) = true

-- What `post` hashes.
abbrev pub hash_of : Env → JournalKind → Entries → Option ℕ → ℕ
hash_of env kind raw o = env.fingerprint (journal_document kind (sorted (nonzero raw)) o)

abbrev is_unbalanced : Entries → Bool
is_unbalanced entries = ltb (length entries) 2 || not (is_zero (total entries))

-- What a posting that returned says of its entries, and the journal that holds its key.
record Posted (env : Env) (key : JournalKey) (kind : JournalKind) (raw : Entries) (o : Option ℕ)
    (after : Db) : Type 0 where
  j : Journal
  balanced : is_unbalanced (sorted (nonzero raw)) ≡ false
  within : over_limit (sorted (nonzero raw)) ≡ false
  found : find_journal key after ≡ some j
  hashed : j.payload_hash ≡ hash_of env kind raw o

own_key : (key : JournalKey) → journal_key_eq key key ≡ true
unfolding journal_key_eq
own_key key = eqb_refl JournalKey-discrete key

own_found :
    (key : JournalKey) (j : Journal) (journals : List Journal)
    → j.business_key ≡ key
    → find? (λ (r : Journal). journal_key_eq r.business_key key) (j ∷ journals) ≡ some j
own_found key j journals named = ground (arith, own_key key, ap (λ k. journal_key_eq k key) named)

post-Posted :
    (env : Env) (key : JournalKey) (kind : JournalKind) (raw : Entries) (o : Option ℕ)
    (db after : Db)
    → post env key kind raw o db ≡ ok (tt, after)
    → Posted env key kind raw o after
unfolding post ◌>>=◌
post-Posted env key kind raw o db after e = elim (Option-cases (find_journal key db)) [
  | inl missing ↦
      (let entries = sorted (nonzero raw) in
        let hashed = hash_of env kind raw o in
        let same : written key kind entries hashed o db ≡ after =
          ground (arith, missing, write_journal_lem key kind entries hashed o db) in
        let added : Journal = record {
          id = db.next_id;
          business_key = key;
          payload_hash = hashed;
          kind = kind;
          order_id = o;
        } in
        record {
          j = added;
          balanced = ground (arith, e);
          within = ground (arith, e);
          found =
              subst (λ (d : Db). find_journal key d ≡ some added) same
                (ap (find? (λ (r : Journal). journal_key_eq r.business_key key))
                    (apply_entries-journals db.next_id entries (with_journal key kind hashed o db))
                  ∙ own_found key added db.journals refl);
          hashed = refl;
        })
  | inr (j, found) ↦ record {
    j = j;
    balanced = ground (arith, e);
    within = ground (arith, e);
    found = ground (arith, e, found);
    hashed = ground (arith, e, found);
  }
]

-- When a journal was posted under a key, whatever was there before, posting the same journal under it
-- again returns and changes nothing, and posting one whose hash differs is refused, whatever its kind,
-- entries and order are.
pub post_again :
    (env : Env) (key : JournalKey) (kind kind' : JournalKind) (raw raw' : Entries) (o o' : Option ℕ)
    (db after : Db)
    → post env key kind raw o db ≡ ok (tt, after)
    → (hash_of env kind raw o == hash_of env kind' raw' o') ≡ false
    → (post env key kind raw o after ≡ ok (tt, after))
      × (is_refused (post env key kind' raw' o' after) ≡ true)
unfolding post ◌>>=◌
post_again env key kind kind' raw raw' o o' db after e differs =
    let p = post-Posted env key kind raw o db after e in
    (
      ground (arith, p.balanced, p.within, p.found, p.hashed),
      ground (arith, p.found, p.hashed, differs),
    )
