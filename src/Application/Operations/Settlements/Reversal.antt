-- ===== src/Application/Operations/Settlements/Reversal.antt =====
-- The reversal of a statement in `correct_settlement` of packages/application/operations.py.
use saup.Base.{ℕ, ◌≡◌, Option, none, ℤ, ◌+ℤ◌, int_laws}
use saup.Domain.Errors.{ok}
use saup.Store.Db.{Db, Env}
use saup.Store.Keys.{
  AccountCode, marketplace_receivable, settlement_clearing, settlement_variance, account_eq,
  JournalKey, settlement_statement, settlement_reversal,
}
use saup.Application.Finance.Ledger.{post, balance}
use saup.Application.Finance.Ledger.Balance.{amount_of}
use saup.Application.Finance.Ledger.Post.{find_journal, post_new}
use saup.Application.AfterSales.Settlements.{statement_entries}
use saup.Application.Operations.Settlements.{reversal_entries}

opposite :
    (expected actual : ℕ) (c : AccountCode) (z : ℤ)
    → amount_of c (reversal_entries expected actual)
        +ℤ (amount_of c (statement_entries expected actual) +ℤ z)
      ≡ z
unfolding account_eq
opposite expected actual marketplace_receivable z = grind (int_laws)
opposite expected actual settlement_clearing z = grind (int_laws)
opposite expected actual settlement_variance z = grind (int_laws)
opposite expected actual c z = grind (int_laws)

-- A statement that is booked and then taken back by the reversal of a correction, each under a key that
-- was not used, leaves the balance of every account as it was.
pub reversal_undoes :
    (env again : Env) (key other : JournalKey) (expected actual : ℕ) (o : Option ℕ)
    (db mid after : Db)
    → find_journal key db ≡ none
    → post env key settlement_statement (statement_entries expected actual) o db ≡ ok (tt, mid)
    → find_journal other mid ≡ none
    → post again other settlement_reversal (reversal_entries expected actual) o mid ≡ ok (tt, after)
    → (c : AccountCode) → balance c after ≡ balance c db
reversal_undoes env again key other expected actual o db mid after unused booked free reversed c =
    let back =
      post_new again other settlement_reversal (reversal_entries expected actual) o mid after free
        reversed c in
    let there =
      post_new env key settlement_statement (statement_entries expected actual) o db mid unused
        booked c in
    rw (back, there) (opposite expected actual c (balance c db))
