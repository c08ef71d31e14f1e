-- ===== src/Application/Finance/Ledger/Balance.antt =====
-- The ledger stays balanced: its balances add up to nothing, and each is the sum of its postings.
use saup.Base.{
  ℕ, ◌≡◌, refl, ◌∙◌, inl, inr, Bool, true, false, Bool-cases, arith, List, [], ◌∷◌, find?, any,
  none, some, if◌then◌else◌, ℤ, pos, ◌+ℤ◌, int_laws,
}
use saup.Domain.Errors.{ok}
use saup.Store.Db.{Db}
use saup.Store.Keys.{AccountCode, account_eq}
use saup.Store.Rows.{Account, Posting}
use saup.Store.Monad.{modify, for_each}
use saup.Application.Finance.Ledger.{Entries, ensure, credit, total, apply_entry, balance}

-- The sum of all balances.
abbrev pub sum_accounts : List Account → ℤ
sum_accounts [] = pos 0
sum_accounts (a ∷ accounts) = a.balance +ℤ sum_accounts accounts

-- The sum of the postings to one account.
abbrev pub posted : AccountCode → List Posting → ℤ
posted code [] = pos 0
posted code (p ∷ postings) =
    let rest = posted code postings in if account_eq p.account code then p.delta +ℤ rest else rest

-- The balance of the first account with a code.
abbrev pub balance_in : AccountCode → List Account → ℤ
balance_in code [] = pos 0
balance_in code (a ∷ accounts) =
    if account_eq a.code code then a.balance else balance_in code accounts

pub balance-eq : (code : AccountCode) (db : Db) → balance code db ≡ balance_in code db.accounts
unfolding balance
balance-eq code db = go db.accounts
  where
    go :
        (accounts : List Account)
        → (elim (find? (λ (a : Account). account_eq a.code code) accounts) as (λ _. ℤ) [
          | none ↦ pos 0
          | some a ↦ a.balance
        ])
          ≡ balance_in code accounts
    go [] = refl
    go (a ∷ accounts) = ground (arith, go accounts)

abbrev known : AccountCode → List Account → Bool
known code = any (λ a. account_eq a.code code)

sum-ensure :
    (code : AccountCode) (accounts : List Account)
    → sum_accounts (ensure code accounts) ≡ sum_accounts accounts
unfolding ensure
sum-ensure code accounts = elim (Bool-cases (known code accounts)) [
  | inl e ↦ rw e refl
  | inr e ↦ rw e (omega int_laws)
]

known-ensure :
    (code : AccountCode) (accounts : List Account) → known code (ensure code accounts) ≡ true
unfolding ensure account_eq
known-ensure code accounts = ground arith

sum-credit :
    (code : AccountCode) (delta : ℤ) (accounts : List Account)
    → known code accounts ≡ true
    → sum_accounts (credit code delta accounts) ≡ sum_accounts accounts +ℤ delta
unfolding credit
sum-credit code delta [] e = cc
sum-credit code delta (a ∷ accounts) e = grind (int_laws, sum-credit code delta accounts)

eq→≡ : (a b : AccountCode) → account_eq a b ≡ true → a ≡ b
unfolding account_eq
eq→≡ a b h = ground arith

eq_refl : (a : AccountCode) → account_eq a a ≡ true
unfolding account_eq
eq_refl a = ground arith

balance_in-new :
    (code : AccountCode) (accounts : List Account)
    → known code accounts ≡ false
    → balance_in code accounts ≡ pos 0
balance_in-new code [] e = refl
balance_in-new code (a ∷ accounts) e = ground (arith, balance_in-new code accounts)

balance_in-ensure :
    (c code : AccountCode) (accounts : List Account)
    → balance_in c (ensure code accounts) ≡ balance_in c accounts
unfolding ensure
balance_in-ensure c code accounts = ground (arith, balance_in-new code accounts, eq→≡ code c)

-- A credit changes the account that it names, and no other.
balance_in-credit :
    (c code : AccountCode) (delta : ℤ) (accounts : List Account)
    → known code accounts ≡ true
    → balance_in c (credit code delta accounts)
      ≡ (if account_eq code c then delta +ℤ balance_in c accounts else balance_in c accounts)
unfolding credit
balance_in-credit c code delta [] e = cc
balance_in-credit c code delta (a ∷ accounts) e = grind (
  int_laws,
  balance_in-credit c code delta accounts,
  eq→≡ a.code code,
  eq→≡ a.code c,
  eq→≡ code c,
  eq_refl c,
  eq_refl code,
)

-- What the entries of a journal bring to one account.
abbrev pub amount_of : AccountCode → Entries → ℤ
amount_of c [] = pos 0
amount_of c ((code, delta) ∷ entries) =
    let rest = amount_of c entries in if account_eq code c then delta +ℤ rest else rest

apply_entry-balance :
    (c : AccountCode) (i : ℕ) (e : AccountCode × ℤ) (db : Db)
    → balance_in c (apply_entry i e db).accounts
      ≡ (if account_eq e.0 c then e.1 +ℤ balance_in c db.accounts else balance_in c db.accounts)
unfolding apply_entry
apply_entry-balance c i (code, delta) db =
    balance_in-credit c code delta (ensure code db.accounts) (known-ensure code db.accounts)
    ∙ (rw (balance_in-ensure c code db.accounts) refl)

apply_entry-sum :
    (i : ℕ) (e : AccountCode × ℤ) (db : Db)
    → sum_accounts (apply_entry i e db).accounts ≡ sum_accounts db.accounts +ℤ e.1
unfolding apply_entry
apply_entry-sum i (code, delta) db =
    sum-credit code delta (ensure code db.accounts) (known-ensure code db.accounts)
    ∙ (rw (sum-ensure code db.accounts) refl)

apply_entry-posted :
    (c : AccountCode) (i : ℕ) (e : AccountCode × ℤ) (db : Db)
    → posted c (apply_entry i e db).postings
      ≡ (if account_eq e.0 c then e.1 +ℤ posted c db.postings else posted c db.postings)
unfolding apply_entry
apply_entry-posted c i (code, delta) db = refl

-- The loop of `post` over the entries.
abbrev pub apply_entries : ℕ → Entries → Db → Db
apply_entries i [] db = db
apply_entries i (e ∷ entries) db = apply_entries i entries (apply_entry i e db)

pub for_each-apply :
    (i : ℕ) (entries : Entries) (db : Db)
    → for_each entries (λ e. modify (apply_entry i e)) db ≡ ok (tt, apply_entries i entries db)
unfolding for_each modify
for_each-apply i [] db = refl
for_each-apply i (e ∷ entries) db = for_each-apply i entries (apply_entry i e db)

pub apply_entries-sum :
    (i : ℕ) (entries : Entries) (db : Db)
    → sum_accounts (apply_entries i entries db).accounts ≡ sum_accounts db.accounts +ℤ total entries
unfolding total
apply_entries-sum i [] db = grind int_laws
apply_entries-sum i (e ∷ entries) db =
    grind (int_laws, apply_entries-sum i entries (apply_entry i e db), apply_entry-sum i e db)

pub apply_entries-balance :
    (c : AccountCode) (i : ℕ) (entries : Entries) (db : Db)
    → balance_in c (apply_entries i entries db).accounts
      ≡ amount_of c entries +ℤ balance_in c db.accounts
apply_entries-balance c i [] db = grind int_laws
apply_entries-balance c i (e ∷ entries) db =
    grind (
      int_laws,
      apply_entries-balance c i entries (apply_entry i e db),
      apply_entry-balance c i e db,
    )

pub apply_entries-posted :
    (c : AccountCode) (i : ℕ) (entries : Entries) (db : Db)
    → posted c (apply_entries i entries db).postings ≡ amount_of c entries +ℤ posted c db.postings
apply_entries-posted c i [] db = grind int_laws
apply_entries-posted c i (e ∷ entries) db =
    grind
      (int_laws, apply_entries-posted c i entries (apply_entry i e db), apply_entry-posted c i e db)
