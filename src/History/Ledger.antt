-- ===== src/History/Ledger.antt =====
-- The ledger under every sequence of transactions.
use saup.Base.{List}
use saup.Store.Db.{Db, Env}
use saup.Application.Finance.Ledger.Once.{HasDistinctKeys}
use saup.Application.Finance.Ledger.Post.{IsBalanced, IsSolvent}
use saup.Effects.Ledger.{
  balanced_effects, solvent_effects, distinct_effects, balanced_sends, solvent_sends,
  distinct_sends,
}
use saup.History.{Request, history}
use saup.History.Kept.{history-keeps}

-- Whatever the transactions, their order, their arguments and the answers of the outside: a ledger
-- whose balances add up to nothing and agree with its postings stays so.
pub history-IsBalanced :
    (steps : List (Env × Request)) (db : Db) → IsBalanced db → IsBalanced (history steps db)
history-IsBalanced = history-keeps balanced_sends

-- Whatever the transactions, their order, their arguments and the answers of the outside: neither the
-- bank account nor a deposit is ever overdrawn.
pub history-IsSolvent :
    (steps : List (Env × Request)) (db : Db) → IsSolvent db → IsSolvent (history steps db)
history-IsSolvent = history-keeps solvent_sends

-- Whatever the transactions, their order, their arguments and the answers of the outside: no two
-- journals get the same business key, so that a payment, a sale, a refund or a settlement is posted
-- once.
pub history-HasDistinctKeys :
    (steps : List (Env × Request)) (db : Db)
    → HasDistinctKeys db
    → HasDistinctKeys (history steps db)
history-HasDistinctKeys = history-keeps distinct_sends
