-- ===== src/Life/Runs.antt =====
-- The life of an order under every sequence of transactions.
use saup.Base.{ℕ, ◌<◌, ◌≡◌, sym, ap, subst, true, List, Option, none, some}
use saup.Domain.OrderState.{OrderState}
use saup.Domain.OrderState.Graph.{is_final}
use saup.Store.Db.{Db, Env}
use saup.Store.Rows.{Order}
use saup.Store.Tables.{find_order}
use saup.History.{Request, history}
use saup.History.Kept.{history-keeps}
use saup.Life.{◌⟶*◌, stay, ⟶*-final}
use saup.Life.Kept.{run_effects, run_sends}

-- The order is there, in a state that is reached from `s`.
abbrev pub Reaches : OrderState → Option Order → Type 0
Reaches s none = ⊥
Reaches s (some o) = s ⟶* o.state

abbrev pub state_of : Option Order → Option OrderState
state_of none = none
state_of (some o) = some o.state

Reaches-final :
    {s : OrderState} (found : Option Order)
    → is_final s ≡ true
    → Reaches s found
    → state_of found ≡ some s
Reaches-final none final path = elim path [ ]
Reaches-final (some o) final path = ap some (sym (⟶*-final path final))

-- Whatever the transactions, their order, their arguments and the answers of the outside: an order of
-- the table stays in it, and its later state is reached from its earlier one along the edges of the
-- graph of order states. Identifiers are assumed to lie below the counter, as those made by it do.
pub history-Refines :
    (steps : List (Env × Request)) (db : Db) (n : ℕ) (o : Order)
    → n < db.next_id
    → find_order n db ≡ some o
    → Reaches o.state (find_order n (history steps db))
history-Refines steps db n o old found =
    let later =
      history-keeps run_sends steps db
        (record { old = old; order = o; found = found; path = stay }) in
    subst (Reaches o.state) (sym later.found) later.path

-- Whatever the transactions, their order, their arguments and the answers of the outside: an order that
-- is closed, cancelled or failed keeps its state, its identifier lying below the counter.
pub history-final :
    (steps : List (Env × Request)) (db : Db) (n : ℕ) (o : Order)
    → n < db.next_id
    → find_order n db ≡ some o
    → is_final o.state ≡ true
    → state_of (find_order n (history steps db)) ≡ some o.state
history-final steps db n o old found final =
    Reaches-final (find_order n (history steps db)) final (history-Refines steps db n o old found)
