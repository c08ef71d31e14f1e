-- ===== src/Application/Operations/Settlements/Rebook.antt =====
-- What the journals of `correct_settlement` of packages/application/operations.py do to the balances.
use saup.Base.{
  ℕ, ◌≡◌, ◌≢◌, refl, sym, ap, ◌∙◌, subst, Bool, true, false, Option, none, find?, List, ◌∷◌, ℤ, pos,
  neg, ◌+ℤ◌, int_laws, arith, Bool-cases, inl, inr, eqb→eq,
}
use saup.Domain.Errors.{ok}
use saup.Domain.OperatorCommands.{SettlementCorrection}
use saup.Store.Db.{Db, Env}
use saup.Store.Keys.{
  AccountCode, JournalKey, JournalKey-discrete, JournalKind, Correction, reverse_statement,
  reverse_adjustment, new_adjustment, new_statement, correction_key, journal_key_eq,
  journal_document,
}
use saup.Store.Rows.{Journal}
use saup.Store.CaseRows.{Settlement}
use saup.Store.Monad.{when, ◌>>=◌}
use saup.Store.Monad.Ensures.{Post, Post-map, Post-returned, Post-then}
use saup.Application.Finance.Ledger.{Entries, post, balance, sorted, nonzero}
use saup.Application.Finance.Ledger.Balance.{amount_of}
use saup.Application.Finance.Ledger.Once.{apply_entries-journals}
use saup.Application.Finance.Ledger.Post.{
  find_journal, post_new, write_journal_lem, written, with_journal,
}
use saup.Application.AfterSales.Settlements.{adjustment_entries, statement_entries}
use saup.Application.Operations.Settlements.Amounts.{
  no_statement, no_reversal, no_adjustment, statement_cancels, adjustment_cancels, net, settled_by,
}
use saup.Application.Operations.Settlements.{reversal_entries, rebook}

-- Of a journal under `key`: what it brings to the account `c`, and that it uses no other key.
record Booked (c : AccountCode) (amount : ℤ) (key : JournalKey) (db after : Db) : Type 0 where
  moved : balance c after ≡ amount +ℤ balance c db
  others : (k : JournalKey) → key ≢ k → find_journal k db ≡ none → find_journal k after ≡ none

other_key :
    (key k : JournalKey) (j : Journal) (journals : List Journal)
    → j.business_key ≡ key
    → key ≢ k
    → find? (λ (r : Journal). journal_key_eq r.business_key k) journals ≡ none
    → find? (λ (r : Journal). journal_key_eq r.business_key k) (j ∷ journals) ≡ none
unfolding journal_key_eq
other_key key k j journals named differs h = elim (Bool-cases (journal_key_eq j.business_key k)) [
  | inl same ↦ absurd (differs (sym named ∙ eqb→eq JournalKey-discrete j.business_key k same))
  | inr apart ↦ ground (arith, apart, h)
]

post-Booked :
    (env : Env) (key : JournalKey) (kind : JournalKind) (entries : Entries) (o : Option ℕ)
    (c : AccountCode) (db after : Db)
    → find_journal key db ≡ none
    → post env key kind entries o db ≡ ok (tt, after)
    → Booked c (amount_of c entries) key db after
unfolding post ◌>>=◌
post-Booked env key kind raw o c db after missing e =
    let entries = sorted (nonzero raw) in
    let hashed = env.fingerprint (journal_document kind entries o) in
    let same : written key kind entries hashed o db ≡ after =
      ground (arith, missing, write_journal_lem key kind entries hashed o db) in
    record {
      moved = post_new env key kind raw o db after missing e c;
      others = λ k differs free.
          subst (λ (d : Db). find_journal k d ≡ none) same
            (ap (find? (λ (r : Journal). journal_key_eq r.business_key k))
                (apply_entries-journals db.next_id entries (with_journal key kind hashed o db))
              ∙ other_key key k _ db.journals refl differs free);
    }

-- A journal of zeros may be left out.
when-Booked :
    (b : Bool) (env : Env) (key : JournalKey) (kind : JournalKind) (entries : Entries)
    (o : Option ℕ) (c : AccountCode) (db : Db)
    → find_journal key db ≡ none
    → (b ≡ false → amount_of c entries ≡ pos 0)
    → Post
        (λ _ after. Booked c (amount_of c entries) key db after)
        (when b (post env key kind entries o) db)
unfolding when
when-Booked true env key kind entries o c db missing empty =
    Post-returned _ (post env key kind entries o db)
      λ _ after e. post-Booked env key kind entries o c db after missing e
when-Booked false env key kind entries o c db missing empty = record {
  moved = grind (int_laws, empty refl);
  others = λ k differs free. free;
}

module _ (env : Env) (cmd : SettlementCorrection) (row : Settlement) (next expected : ℕ)
    (c : AccountCode) (db : Db)
    (unused : (s : Correction) → find_journal (correction_key row.id next s) db ≡ none) where
  abbrev Step : Correction → ℤ → Db → Db → Type 0
  Step s amount before after = Booked c amount (correction_key row.id next s) before after

  abbrev Net : Db → Type 0
  Net after =
      balance c after +ℤ settled_by c row.expected row.actual row.adjustment
      ≡ balance c db +ℤ settled_by c expected cmd.actual cmd.adjustment

  rebook-Net : Post (λ _ after. Net after) (rebook env cmd row next expected db)
  unfolding rebook
  rebook-Net =
      Post-then (λ _ after. Step reverse_statement _ db after) _ _ _ db
        (when-Booked _ env _ _ (reversal_entries row.expected row.actual) _ c db
          (unused reverse_statement) (no_reversal c row.expected row.actual))
        λ _ first a.
          Post-then (λ _ after. Step reverse_adjustment _ first after) _ _ _ first
            (when-Booked _ env _ _ (adjustment_entries (neg row.adjustment)) _ c first
              (a.others _ (λ e. cc) (unused reverse_adjustment))
              (λ h. (no_adjustment c row.adjustment h).1))
            λ _ second b.
              Post-then (λ _ after. Step new_adjustment _ second after) _ _ _ second
                (when-Booked _ env _ _ (adjustment_entries cmd.adjustment) _ c second
                  (b.others _ (λ e. cc) (a.others _ (λ e. cc) (unused new_adjustment)))
                  (λ h. (no_adjustment c cmd.adjustment h).0))
                λ _ third d.
                  Post-map (λ _ after. Step new_statement _ third after) _ _
                    (when-Booked _ env _ _ (statement_entries expected cmd.actual) _ c third
                      (d.others _ (λ e. cc)
                        (b.others _ (λ e. cc) (a.others _ (λ e. cc) (unused new_statement))))
                      (no_statement c expected cmd.actual))
                    λ _ after f.
                      net _ _ _ _ _ _ _ _ _ _ _ a.moved b.moved d.moved f.moved
                        (statement_cancels c row.expected row.actual)
                        (adjustment_cancels c row.adjustment)

-- When the four keys of a correction are unused and its journals are booked, every account holds what
-- it held before, less what the settlement's old statement and old adjustment bring to it, plus what
-- the new statement and the new adjustment bring to it.
pub rebook_moves :
    (env : Env) (cmd : SettlementCorrection) (row : Settlement) (next expected : ℕ)
    (c : AccountCode) (db after : Db)
    → ((s : Correction) → find_journal (correction_key row.id next s) db ≡ none)
    → rebook env cmd row next expected db ≡ ok (tt, after)
    → balance c after +ℤ settled_by c row.expected row.actual row.adjustment
      ≡ balance c db +ℤ settled_by c expected cmd.actual cmd.adjustment
rebook_moves env cmd row next expected c db after unused e =
    subst (Post _) e (rebook-Net env cmd row next expected c db unused)
