-- ===== src/Lines/Histories.antt =====
-- The lines of the batches under every sequence of transactions.
use saup.Base.{List}
use saup.Store.Db.{Db, Env}
use saup.History.{Request, history}
use saup.History.Kept.{history-keeps}
use saup.Lines.{HasOneActive}
use saup.Lines.Kept.{lines_effects}
use saup.Lines.Batches.{lines_sends}

-- Whatever the transactions, their order, their arguments and the answers of the outside: where no
-- supplier order has two active lines in the batches, none gets a second, so that it is in the files of
-- at most one batch that is under way.
pub history-HasOneActive :
    (steps : List (Env × Request)) (db : Db) → HasOneActive db → HasOneActive (history steps db)
history-HasOneActive steps db h =
    (history-keeps lines_sends steps db (record { one = h; free = λ so_id waits. cc })).one
