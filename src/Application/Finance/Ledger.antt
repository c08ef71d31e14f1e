-- ===== src/Application/Finance/Ledger.antt =====
-- `initialize_accounts`, `account`, `post` and `balance` of packages/application/finance.py.
pub mod Balance
pub mod Post
pub mod Again
pub mod Once
use saup.Base.{
  ℕ, suc, ◌+◌, Bool, true, false, Option, none, some, List, [], ◌∷◌, ◌++◌, find?, any, update,
  length, ◌==◌, ◌||◌, not, ltb, leb, if◌then◌else◌, ℤ, pos, negsuc, ◌+ℤ◌, abs,
}
use saup.Domain.Errors.{conflict, unbalanced_journal, invalid_krw, idempotency_conflict}
use saup.Domain.Pricing.{max_krw}
use saup.Store.Db.{Db, Env}
use saup.Store.Keys.{
  AccountCode, account_eq, control, bank, equity, supplier_expense, marketplace_receivable, revenue,
  marketplace_fees, promotion_expense, refund_expense, supplier_recovery, settlement_clearing,
  settlement_variance, deposit, JournalKind, JournalKey, journal_key_eq, journal_document,
}
use saup.Store.Rows.{Account, Journal, Posting, system, ledger_posted}
use saup.Store.Monad.{
  M, pure, gets, modify, fresh, on_some, when, raise_when, for_each, ◌>>=◌, ◌>>◌,
}
use saup.Application.Common.{audit}

abbrev pub Entries : Type 0
Entries = List (AccountCode × ℤ)

abbrev pub account_codes : List AccountCode
account_codes =
    control ∷ bank ∷ equity ∷ supplier_expense ∷ marketplace_receivable ∷ revenue ∷ marketplace_fees
    ∷ promotion_expense ∷ refund_expense ∷ supplier_recovery ∷ settlement_clearing
    ∷ settlement_variance ∷ []

abbrev has_code : AccountCode → Account → Bool
has_code code a = account_eq a.code code

-- `account(s, code)`: the account's row, made with a balance of 0 where there is none.
unfoldable pub ensure : AccountCode → List Account → List Account
ensure code accounts =
    if any (has_code code) accounts
    then accounts
    else record { code = code; balance = pos 0 } ∷ accounts

-- `a.balance += delta`
unfoldable pub credit : AccountCode → ℤ → List Account → List Account
credit code delta = update (has_code code) (λ a. record a { balance = a.balance +ℤ delta })

pub initialize_accounts : M (Unit {0})
unfolding ensure
initialize_accounts =
    for_each account_codes (λ code. modify (λ db. record db { accounts = ensure code db.accounts }))

abbrev pub is_zero : ℤ → Bool
is_zero (pos n) = n == 0
is_zero (negsuc n) = false

-- `{code: amount ... if amount != 0}`
unfoldable pub nonzero : Entries → Entries
nonzero [] = []
nonzero ((code, amount) ∷ entries) =
    if is_zero amount then nonzero entries else (code, amount) ∷ nonzero entries

unfoldable pub total : Entries → ℤ
total [] = pos 0
total ((code, amount) ∷ entries) = amount +ℤ total entries

unfoldable pub over_limit : Entries → Bool
over_limit [] = false
over_limit ((code, amount) ∷ entries) = ltb max_krw (abs amount) || over_limit entries

-- The place of an account's code in the alphabet, and of a supplier's deposit among the deposits.
abbrev rank : AccountCode → ℕ × ℕ
rank bank = (0, 0)
rank control = (1, 0)
rank (deposit s) = (2, s)
rank equity = (3, 0)
rank marketplace_fees = (4, 0)
rank marketplace_receivable = (5, 0)
rank promotion_expense = (6, 0)
rank refund_expense = (7, 0)
rank revenue = (8, 0)
rank settlement_clearing = (9, 0)
rank settlement_variance = (10, 0)
rank supplier_expense = (11, 0)
rank supplier_recovery = (12, 0)

abbrev comes_before : ℕ × ℕ → ℕ × ℕ → Bool
comes_before (a, b) (c, d) = ltb a c || (if a == c then leb b d else false)

unfoldable pub insert_entry : AccountCode × ℤ → Entries → Entries
insert_entry e [] = e ∷ []
insert_entry e (x ∷ entries) =
    if comes_before (rank e.0) (rank x.0) then e ∷ x ∷ entries else x ∷ insert_entry e entries

-- `sorted(entries.items())`; the codes of a dictionary are distinct.
unfoldable pub sorted : Entries → Entries
unfolding insert_entry
sorted [] = []
sorted (e ∷ entries) = insert_entry e (sorted entries)

-- One round of the loop over the entries: the account's balance and the posting change together.
unfoldable pub apply_entry : ℕ → AccountCode × ℤ → Db → Db
unfolding ensure credit
apply_entry journal_id (code, delta) db = record db {
  accounts = credit code delta (ensure code db.accounts);
  postings = record { journal_id = journal_id; account = code; delta = delta } ∷ db.postings;
}

-- A new journal with its postings.
unfoldable pub write_journal : JournalKey → JournalKind → Entries → ℕ → Option ℕ → M (Unit {0})
write_journal key kind entries hashed order_id = do
  i ← fresh
  modify (λ db. record db {
    journals =
        record {
          id = i;
          business_key = key;
          payload_hash = hashed;
          kind = kind;
          order_id = order_id;
        }
        ∷ db.journals;
  })
  for_each entries (λ e. modify (apply_entry i e))
  audit ledger_posted i system

-- A repeated key must come with the same journal, and then posts nothing.
unfoldable pub post : Env → JournalKey → JournalKind → Entries → Option ℕ → M (Unit {0})
post env key kind raw order_id = do
  let entries = sorted (nonzero raw)
  raise_when (ltb (length entries) 2 || not (is_zero (total entries))) (conflict unbalanced_journal)
  raise_when (over_limit entries) (conflict invalid_krw)
  let hashed = env.fingerprint (journal_document kind entries order_id)
  existing ← gets (λ db. find? (λ (j : Journal). journal_key_eq j.business_key key) db.journals)
  on_some existing (write_journal key kind entries hashed order_id)
      (λ j. raise_when (not (j.payload_hash == hashed)) (conflict idempotency_conflict))

-- `balance(s, code)`: 0 where there is no such account.
unfoldable pub balance : AccountCode → Db → ℤ
balance code db = elim (find? (has_code code) db.accounts) [ none ↦ pos 0 | some a ↦ a.balance ]
