-- ===== src/Application/Frame.antt =====
-- The blocks that write no account, no posting and no journal, whatever an invariant says of those
-- tables.
use saup.Base.{ℕ, List}
use saup.Store.Db.{Db, Env}
use saup.Store.Rows.{Journal, Account, Posting}
use saup.Store.Monad.{modify, fresh}
use saup.Store.Monad.Keeps.{
  Keeps, Keeps-pure, Keeps-raise, Keeps-gets, Keeps-lift, Keeps-present, Keeps-catch, Keeps-on_some,
  Keeps-if, Keeps-raise_when, Keeps-when, Keeps-bind, Keeps-for_each, Keeps-collect,
}
use saup.Application.Common.{lock_treasury, enqueue, review}
use saup.Application.OrderRules.{transition, context, pause_listing}

-- An invariant of those tables, as one of the whole state.
pub record OnLedger (P : List Account → List Posting → List Journal → Type 0) (db : Db)
    : Type 0 where
  pub ledger : P db.accounts db.postings db.journals

module _ {P : List Account → List Posting → List Journal → Type 0} where
  pub Keeps-elsewhere :
      (f : Db → Db)
      → ((db : Db)
          → P db.accounts db.postings db.journals
          → P (f db).accounts (f db).postings (f db).journals)
      → Keeps (OnLedger P) (modify f)
  unfolding modify
  Keeps-elsewhere f k = record { at = λ db h. record { ledger = k db h.ledger } }

  pub Keeps-new_id : Keeps (OnLedger P) fresh
  unfolding fresh
  Keeps-new_id = record { at = λ db h. record { ledger = h.ledger } }

pub ruleset frame_rules = (
  Keeps-pure, Keeps-raise, Keeps-gets, Keeps-lift, Keeps-present, Keeps-catch, Keeps-on_some,
  Keeps-if, Keeps-raise_when, Keeps-when, Keeps-bind, Keeps-for_each, Keeps-collect,
  Keeps-elsewhere, Keeps-new_id,
)

module _ {P : List Account → List Posting → List Journal → Type 0} where
  pub lock_treasury-frame : Keeps (OnLedger P) lock_treasury
  unfolding lock_treasury
  lock_treasury-frame = search frame_rules depth 8

  pub enqueue-frame :
      (env : Env) (kind : _) (key : _) (payload : _) (at : ℕ)
      → Keeps (OnLedger P) (enqueue env kind key payload at)
  unfolding enqueue
  enqueue-frame env kind key payload at = search frame_rules depth 8

  pub review-frame : (env : Env) (category : _) (i : ℕ) → Keeps (OnLedger P) (review env category i)
  unfolding review
  review-frame env category i = search (frame_rules, enqueue-frame) depth 10

  pub transition-frame : (i : ℕ) (target : _) → Keeps (OnLedger P) (transition i target)
  unfolding transition
  transition-frame i target = search frame_rules depth 10

  pub context-frame : (o : _) → Keeps (OnLedger P) (context o)
  unfolding context
  context-frame o = search frame_rules depth 16

  pub pause_listing-frame : (env : Env) (i : ℕ) → Keeps (OnLedger P) (pause_listing env i)
  unfolding pause_listing
  pause_listing-frame env i = search (frame_rules, enqueue-frame) depth 16
