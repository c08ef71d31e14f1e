-- ===== src/Effects.antt =====
-- The effects of the transactions, as an interface between the code and the invariants: an invariant
-- that every kind of write keeps is kept by every operation.
pub mod Finance
pub mod Suppliers
pub mod Orders
pub mod AfterSales
pub mod Calls
pub mod Cancels
pub mod Batches
pub mod Answers
pub mod Evidence
pub mod Jobs
pub mod Receipts
pub mod Operations
pub mod Dispatching
pub mod Ledger
use saup.Base.{ℕ, ◌≡◌, refl, Bool, true, false, List, Option}
use saup.Store.Db.{Db, Env}
use saup.Store.Rows.{Account, Posting, Journal, Payment, PaymentStatus, Order, Receipt, Who}
use saup.Store.CaseRows.{BatchItem}
use saup.Store.Monad.{M, modify, fresh}
use saup.Store.Monad.Keeps.{
  Keeps, Keeps-pure, Keeps-raise, Keeps-gets, Keeps-lift, Keeps-present, Keeps-catch, Keeps-on_some,
  Keeps-if, Keeps-raise_when, Keeps-when, Keeps-bind, Keeps-for_each, Keeps-collect,
}
use saup.Domain.OrderState.{OrderState}
use saup.Store.Keys.{JournalKey, JournalKind, Document, Target}
use saup.Store.Tables.{update_order, update_payment, update_lines}
use saup.Application.Common.{lock_treasury, enqueue, review, execute_command}
use saup.Application.Books.Gains.{Gains}
use saup.Application.Commerce.Intake.{OrderInput, insert_order}
use saup.Application.Commerce.Payments.{insert_payment, approve_payment, dispatch}
use saup.Application.Finance.Ledger.{Entries, post}
use saup.Application.Finance.Treasury.{settle_payment}
use saup.Application.Operations.Funds.{move_deposit}
use saup.Application.OrderRules.{transition, context, pause_listing}
use saup.Application.SupplierOperations.Batches.{create_batch}
use saup.Domain.SupplierCommands.{BatchCreate}
use saup.Domain.SupplierState.{Actor}

-- The tables that invariants speak of.
pub record Watched : Type 0 where
  pub next_id : ℕ
  pub accounts : List Account
  pub postings : List Posting
  pub journals : List Journal
  pub payments : List Payment
  pub orders : List Order
  pub batch_items : List BatchItem

abbrev pub watched : Db → Watched
watched db = record {
  next_id = db.next_id;
  accounts = db.accounts;
  postings = db.postings;
  journals = db.journals;
  payments = db.payments;
  orders = db.orders;
  batch_items = db.batch_items;
}

-- Writes elsewhere, and new identifiers, do not matter.
pub record Quiet (P : Db → Type 0) : Type 0 where
  pub elsewhere : (f : Db → Db) → ((db : Db) → watched (f db) ≡ watched db) → Keeps P (modify f)
  pub new_id : Keeps P fresh

-- The statuses after which no provider is called.
abbrev pub is_gone : PaymentStatus → Bool
is_gone PaymentStatus.pending = false
is_gone PaymentStatus.evidence_pending = false
is_gone PaymentStatus.manual_approval = false
is_gone _ = true

-- The writes that the operations are made of: an order is new, changes its state by the table, or keeps
-- it; a payment is new, settled, or not taken back from the statuses after its dispatch; the lines of a
-- batch are not made active again; and what is posted takes no money but a settled payment's
-- and what a deposit gets from the bank.
pub record Effects (P : Db → Type 0) : Type 0 where
  pub quiet : Quiet P
  pub new_order : (env : Env) (input : OrderInput) → Keeps P (insert_order env input)
  pub move : (i : ℕ) (target : OrderState) → Keeps P (transition i target)
  pub touch :
      (i : ℕ) (g : Order → Order)
      → ((o : Order) → (g o).id ≡ o.id)
      → ((o : Order) → (g o).state ≡ o.state)
      → Keeps P (update_order i g)
  pub new_payment :
      (order_id so_id amount destination : ℕ) (status : PaymentStatus)
      → Keeps P (insert_payment order_id so_id amount destination status)
  pub end_payment :
      (i : ℕ) (g : Payment → Payment)
      → ((p : Payment) → (g p).id ≡ p.id)
      → ((p : Payment) → is_gone p.status ≡ true → is_gone (g p).status ≡ true)
      → Keeps P (update_payment i g)
  pub touch_lines :
      (test : BatchItem → Bool) (g : BatchItem → BatchItem)
      → ((r : BatchItem) → (g r).supplier_order_id ≡ r.supplier_order_id)
      → ((r : BatchItem) → (g r).active ≡ true → r.active ≡ true)
      → Keeps P (update_lines test g)
  pub gain :
      (env : Env) (key : JournalKey) (kind : JournalKind) (entries : Entries) (o : Option ℕ)
      → Gains entries
      → Keeps P (post env key kind entries o)
  pub settle :
      (env : Env) (p : Payment) (receipt : Receipt) → Keeps P (settle_payment env p receipt)
  pub fund :
      (env : Env) (supplier_id : ℕ) (target : Target) (amount : ℕ)
      → Keeps P (move_deposit env supplier_id target amount)

-- The transactions that check first what they write: those that take a payment on to its dispatch, and
-- the one that adds lines to the batches.
pub record Sends (P : Db → Type 0) : Type 0 where
  pub approve :
      (env : Env) (i amount destination : ℕ) (who : Who)
      → Keeps P (approve_payment env i amount destination who)
  pub send : (env : Env) (i : ℕ) → Keeps P (dispatch env i)
  pub batch : (env : Env) (cmd : BatchCreate) (actor : Actor) → Keeps P (create_batch env cmd actor)

module _ {P : Db → Type 0} ⦃q : Quiet P⦄ where
  pub Keeps-elsewhere :
      (f : Db → Db) → ((db : Db) → watched (f db) ≡ watched db) → Keeps P (modify f)
  Keeps-elsewhere f same = q.elsewhere f same

  pub Keeps-new_id : Keeps P fresh
  Keeps-new_id = q.new_id

pub ruleset quiet_rules = (
  Keeps-pure, Keeps-raise, Keeps-gets, Keeps-lift, Keeps-present, Keeps-catch, Keeps-on_some,
  Keeps-if, Keeps-raise_when, Keeps-when, Keeps-bind, Keeps-for_each, Keeps-collect,
  Keeps-elsewhere, Keeps-new_id, refl,
)

module _ {P : Db → Type 0} ⦃q : Quiet P⦄ where
  pub lock_treasury-keeps : Keeps P lock_treasury
  unfolding lock_treasury
  lock_treasury-keeps = search quiet_rules depth 8

  pub enqueue-keeps :
      (env : Env) (kind : _) (key : _) (payload : _) (at : ℕ)
      → Keeps P (enqueue env kind key payload at)
  unfolding enqueue
  enqueue-keeps env kind key payload at = search quiet_rules depth 10

  pub review-keeps : (env : Env) (category : _) (i : ℕ) → Keeps P (review env category i)
  unfolding review
  review-keeps env category i = search (quiet_rules, enqueue-keeps) depth 12

  pub context-keeps : (o : Order) → Keeps P (context o)
  unfolding context
  context-keeps o = search quiet_rules depth 16

  pub pause_listing-keeps : (env : Env) (i : ℕ) → Keeps P (pause_listing env i)
  unfolding pause_listing
  pause_listing-keeps env i = search (quiet_rules, enqueue-keeps) depth 16

module _ {P : Db → Type 0} ⦃q : Quiet P⦄ where
  pub execute_command-keeps :
      (env : Env) (scope key key_length : ℕ) (payload : Document) (action : M ℕ)
      → Keeps P action
      → Keeps P (execute_command env scope key key_length payload action)
  unfolding execute_command
  execute_command-keeps env scope key key_length payload action kept = search quiet_rules depth 16

-- A line that is made inactive.
pub inactive : (r : BatchItem) → false ≡ true → r.active ≡ true
inactive r h = cc

-- The same for each field of the interface.
module _ {P : Db → Type 0} ⦃effects : Effects P⦄ where
  instance pub effects_quiet : Quiet P
  effects_quiet = effects.quiet

  pub insert_order-keeps : (env : Env) (input : OrderInput) → Keeps P (insert_order env input)
  insert_order-keeps env input = effects.new_order env input

  pub transition-keeps : (i : ℕ) (target : OrderState) → Keeps P (transition i target)
  transition-keeps i target = effects.move i target

  pub Keeps-touch :
      (i : ℕ) (g : Order → Order)
      → ((o : Order) → (g o).id ≡ o.id)
      → ((o : Order) → (g o).state ≡ o.state)
      → Keeps P (update_order i g)
  Keeps-touch i g same kept = effects.touch i g same kept

  pub insert_payment-keeps :
      (order_id so_id amount destination : ℕ) (status : PaymentStatus)
      → Keeps P (insert_payment order_id so_id amount destination status)
  insert_payment-keeps order_id so_id amount destination status =
      effects.new_payment order_id so_id amount destination status

  pub Keeps-end_payment :
      (i : ℕ) (g : Payment → Payment)
      → ((p : Payment) → (g p).id ≡ p.id)
      → ((p : Payment) → is_gone p.status ≡ true → is_gone (g p).status ≡ true)
      → Keeps P (update_payment i g)
  Keeps-end_payment i g same stays = effects.end_payment i g same stays

  pub Keeps-touch_lines :
      (test : BatchItem → Bool) (g : BatchItem → BatchItem)
      → ((r : BatchItem) → (g r).supplier_order_id ≡ r.supplier_order_id)
      → ((r : BatchItem) → (g r).active ≡ true → r.active ≡ true)
      → Keeps P (update_lines test g)
  Keeps-touch_lines test g same stays = effects.touch_lines test g same stays

  pub post-keeps :
      (env : Env) (key : JournalKey) (kind : JournalKind) (entries : Entries) (o : Option ℕ)
      → Gains entries
      → Keeps P (post env key kind entries o)
  post-keeps env key kind entries o gains = effects.gain env key kind entries o gains

  pub settle_payment-keeps :
      (env : Env) (p : Payment) (receipt : Receipt) → Keeps P (settle_payment env p receipt)
  settle_payment-keeps env p receipt = effects.settle env p receipt

  pub move_deposit-keeps :
      (env : Env) (supplier_id : ℕ) (target : Target) (amount : ℕ)
      → Keeps P (move_deposit env supplier_id target amount)
  move_deposit-keeps env supplier_id target amount = effects.fund env supplier_id target amount

pub ruleset effect_rules = (
  Keeps-pure, Keeps-raise, Keeps-gets, Keeps-lift, Keeps-present, Keeps-catch, Keeps-on_some,
  Keeps-if, Keeps-raise_when, Keeps-when, Keeps-bind, Keeps-for_each, Keeps-collect,
  Keeps-elsewhere, Keeps-new_id, Keeps-touch, Keeps-end_payment, Keeps-touch_lines, inactive, refl,
)
