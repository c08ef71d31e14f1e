-- ===== src/Application/Finance/Ledger/Post.antt =====
-- What `post` does to the ledger, and the invariants that it keeps.
use saup.Base.{
  ℕ, ◌+◌, ◌≡◌, refl, sym, ◌∙◌, ap, Bool, true, false, arith, List, [], ◌∷◌, find?, Option, none, ℤ,
  pos, negsuc, ◌+ℤ◌, ◌≤ℤ◌, int_laws,
}
use saup.Domain.Errors.{Result, ok, err}
use saup.Store.Db.{Db, Env}
use saup.Store.Keys.{
  AccountCode, bank, deposit, JournalKind, JournalKey, journal_key_eq, journal_document,
}
use saup.Store.Rows.{Account, Posting, Journal, ledger_posted, system}
use saup.Store.Monad.{◌>>=◌}
use saup.Store.Monad.Keeps.{
  Keeps, Outcome, Outcome-after, Outcome-gets, Outcome-on_some, Outcome-raise_when, Keeps-bind,
  Keeps-after, Keeps-gets, Keeps-on_some, Keeps-raise_when,
}
use saup.Application.Common.{audit}
use saup.Application.Frame.{OnLedger}
use saup.Application.Finance.Ledger.{
  Entries, nonzero, total, sorted, insert_entry, post, write_journal, is_zero, balance,
}
use saup.Application.Finance.Ledger.Balance.{
  sum_accounts, posted, balance_in, balance-eq, amount_of, apply_entries, for_each-apply,
  apply_entries-sum, apply_entries-balance, apply_entries-posted,
}

-- The state after a new journal.
abbrev pub with_journal : JournalKey → JournalKind → ℕ → Option ℕ → Db → Db
with_journal key kind hashed order_id db = record db {
  next_id = db.next_id + 1;
  journals =
      record {
        id = db.next_id;
        business_key = key;
        payload_hash = hashed;
        kind = kind;
        order_id = order_id;
      }
      ∷ db.journals;
}

abbrev pub written : JournalKey → JournalKind → Entries → ℕ → Option ℕ → Db → Db
written key kind entries hashed order_id db =
    let after = apply_entries db.next_id entries (with_journal key kind hashed order_id db) in
    record after {
      audits =
          record { event = ledger_posted; entity_id = db.next_id; actor = system } ∷ after.audits;
    }

pub write_journal_lem :
    (key : JournalKey) (kind : JournalKind) (entries : Entries) (hashed : ℕ) (o : Option ℕ)
    (db : Db)
    → write_journal key kind entries hashed o db ≡ ok (tt, written key kind entries hashed o db)
unfolding write_journal ◌>>=◌
write_journal_lem key kind entries hashed o db =
    ap
      (λ r. elim r as (λ _. Result (Unit {0} × Db)) [
        | ok (_, after) ↦ audit ledger_posted db.next_id system after
        | err e ↦ err e
      ])
      (for_each-apply db.next_id entries (with_journal key kind hashed o db))

insert-amount :
    (c : AccountCode) (e : AccountCode × ℤ) (entries : Entries)
    → amount_of c (insert_entry e entries) ≡ amount_of c (e ∷ entries)
unfolding insert_entry
insert-amount c e [] = refl
insert-amount c e (x ∷ entries) = grind (int_laws, insert-amount c e entries)

sorted-amount :
    (c : AccountCode) (entries : Entries) → amount_of c (sorted entries) ≡ amount_of c entries
unfolding sorted
sorted-amount c [] = refl
sorted-amount c (e ∷ entries) =
    grind (int_laws, insert-amount c e (sorted entries), sorted-amount c entries)

nonzero-amount :
    (c : AccountCode) (entries : Entries) → amount_of c (nonzero entries) ≡ amount_of c entries
unfolding nonzero
nonzero-amount c [] = refl
nonzero-amount c ((code, pos n) ∷ entries) = grind (int_laws, nonzero-amount c entries)
nonzero-amount c ((code, negsuc n) ∷ entries) = grind (int_laws, nonzero-amount c entries)

-- The balances add up to nothing, and each is the sum of the postings to its account.
pub record Balanced (accounts : List Account) (postings : List Posting) (journals : List Journal)
    : Type 0 where
  pub sums : sum_accounts accounts ≡ pos 0
  pub agrees : (c : AccountCode) → balance_in c accounts ≡ posted c postings

abbrev pub IsBalanced : Db → Type 0
IsBalanced = OnLedger Balanced

-- The money that the seller holds: the bank account and the deposits with the suppliers.
abbrev pub is_cash : AccountCode → Bool
is_cash bank = true
is_cash (deposit s) = true
is_cash _ = false

-- No bank account or deposit is overdrawn.
pub record Solvent (accounts : List Account) (postings : List Posting) (journals : List Journal)
    : Type 0 where
  pub funded : (c : AccountCode) → is_cash c ≡ true → pos 0 ≤ℤ balance_in c accounts

abbrev pub IsSolvent : Db → Type 0
IsSolvent = OnLedger Solvent

zero_of_test : (z : ℤ) → is_zero z ≡ true → z ≡ pos 0
zero_of_test (pos n) h = ground arith
zero_of_test (negsuc n) h = cc

write_journal-IsBalanced :
    (key : JournalKey) (kind : JournalKind) (entries : Entries) (hashed : ℕ) (o : Option ℕ)
    → total entries ≡ pos 0
    → Keeps IsBalanced (write_journal key kind entries hashed o)
write_journal-IsBalanced key kind entries hashed o zero_total = record {
  at = λ db h.
      let mid = with_journal key kind hashed o db in
      rw (write_journal_lem key kind entries hashed o db) (record {
        ledger = record {
          sums =
              grind (int_laws, apply_entries-sum db.next_id entries mid, h.ledger.sums, zero_total);
          agrees = λ c.
              apply_entries-balance c db.next_id entries mid
              ∙ ap (λ (z : ℤ). amount_of c entries +ℤ z) (h.ledger.agrees c)
              ∙ sym (apply_entries-posted c db.next_id entries mid);
        };
      });
}

-- Whatever the entries, `post` keeps the ledger balanced, or raises.
pub post-IsBalanced :
    (env : Env) (key : JournalKey) (kind : JournalKind) (raw : Entries) (o : Option ℕ)
    → Keeps IsBalanced (post env key kind raw o)
unfolding post
post-IsBalanced env key kind raw o =
    let entries = sorted (nonzero raw) in
    Keeps-after _ _ _ λ checked. Keeps-bind _ _ (Keeps-raise_when _ _) λ _.
      Keeps-bind _ _ (Keeps-gets _) λ existing.
        Keeps-on_some existing _ _
          (write_journal-IsBalanced key kind entries _ o
            (zero_of_test (total entries) (ground arith)))
          (λ j. Keeps-raise_when _ _)

-- The entries leave no account of the seller's money below 0.
abbrev pub Funds : Entries → Db → Type 0
Funds entries db =
    (c : AccountCode) → is_cash c ≡ true → pos 0 ≤ℤ amount_of c entries +ℤ balance_in c db.accounts

write_journal_funded :
    (key : JournalKey) (kind : JournalKind) (entries : Entries) (hashed : ℕ) (o : Option ℕ)
    (db : Db)
    → Funds entries db
    → Outcome IsSolvent (write_journal key kind entries hashed o db)
write_journal_funded key kind entries hashed o db funds =
    let mid = with_journal key kind hashed o db in
    rw (write_journal_lem key kind entries hashed o db) (record {
      ledger = record {
        funded = λ c cash. rw (apply_entries-balance c db.next_id entries mid) (funds c cash);
      };
    })

-- Posting keeps the seller's money from being overdrawn when it holds what the entries take.
pub post_funded :
    (env : Env) (key : JournalKey) (kind : JournalKind) (raw : Entries) (o : Option ℕ) (db : Db)
    → IsSolvent db
    → Funds raw db
    → Outcome IsSolvent (post env key kind raw o db)
unfolding post
post_funded env key kind raw o db h funds =
    let entries = sorted (nonzero raw) in
    let hashed = env.fingerprint (journal_document kind entries o) in
    let there = find? (λ (j : Journal). journal_key_eq j.business_key key) db.journals in
    Outcome-after IsSolvent _ _ _ db λ _. Outcome-after IsSolvent _ _ _ db λ _.
      Outcome-gets IsSolvent _ _ db (
        Outcome-on_some IsSolvent there _ _ db
          (write_journal_funded key kind entries hashed o db
            (λ c cash. rw (sorted-amount c (nonzero raw), nonzero-amount c raw) (funds c cash)))
          (λ j. Outcome-raise_when IsSolvent _ _ db h))

-- A journal that takes no money from the bank or a deposit overdraws neither.
pub post-IsSolvent :
    (env : Env) (key : JournalKey) (kind : JournalKind) (raw : Entries) (o : Option ℕ)
    → ((c : AccountCode) → is_cash c ≡ true → pos 0 ≤ℤ amount_of c raw)
    → Keeps IsSolvent (post env key kind raw o)
post-IsSolvent env key kind raw o gains = record {
  at = λ db h.
      post_funded env key kind raw o db h
        (λ c cash. grind (int_laws, h.ledger.funded c cash, gains c cash));
}

-- Whether a journal with the key is there.
abbrev pub find_journal : JournalKey → Db → Option Journal
find_journal key db = find? (λ (j : Journal). journal_key_eq j.business_key key) db.journals

-- When `post` returns for a key that no journal has, the balance of every account is what it was and
-- what the entries bring to that account, which is nothing where no entry names it.
pub post_new :
    (env : Env) (key : JournalKey) (kind : JournalKind) (raw : Entries) (o : Option ℕ)
    (db after : Db)
    → find_journal key db ≡ none
    → post env key kind raw o db ≡ ok (tt, after)
    → (c : AccountCode) → balance c after ≡ amount_of c raw +ℤ balance c db
unfolding post ◌>>=◌
post_new env key kind raw o db after missing e c =
    let entries = sorted (nonzero raw) in
    let hashed = env.fingerprint (journal_document kind entries o) in
    let same : written key kind entries hashed o db ≡ after =
      ground (arith, missing, write_journal_lem key kind entries hashed o db) in
    let mid = with_journal key kind hashed o db in
    let there : balance_in c (written key kind entries hashed o db).accounts
        ≡ amount_of c entries +ℤ balance_in c db.accounts =
      apply_entries-balance c db.next_id entries mid in
    let sums : amount_of c entries ≡ amount_of c raw =
      sorted-amount c (nonzero raw) ∙ nonzero-amount c raw in
    grind (arith, balance-eq c after, balance-eq c db, there, sums, same)
