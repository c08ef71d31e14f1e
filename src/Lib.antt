-- ===== src/Lib.antt =====
-- A verification library for Saup, a drop-shipping back office: orders come from marketplaces, are checked,
-- reserved, ordered from a supplier, paid for, shipped and delivered, and then claimed, refunded and
-- settled. Each service method runs in a database transaction that begins with a lock on the treasury,
-- so that transactions run one after the other; the model gives each transaction as a function from a
-- state of the database to an exception or a new state, and what providers answer as arguments.
--
-- The files and the code that they model (paths from the repository's root):
--   Base: shared helpers, Boolean tests, lists and integers over the native numbers.
--   Domain/Pricing: packages/domain/pricing.py (krw, rate, fee_for, margin, required_price).
--   Domain/Discovery: packages/domain/discovery.py (score, evaluate, experiment_state).
--   Domain/OrderState, Domain/SupplierState: packages/domain/state_machine.py and the table and the
--     actors of packages/domain/supplier_operations.py, each with its step relation in Graph.
--   Domain/SupplierCommands: the input schemas of packages/domain/supplier_operations.py.
--   Domain/OperatorCommands: packages/domain/operations.py.
--   Domain/Address, Domain/Errors: packages/domain/schemas.py (Address), packages/domain/errors.py.
--   Store/Keys, Store/Rows, Store/CaseRows, Store/Db, Store/Tables: the tables of
--     packages/infrastructure/schema_v1.py to schema_v5.py, as lists of rows with the
--     columns that the modelled code uses; Env holds packages/infrastructure/settings.py, the clock, the
--     hash and the cipher.
--   Store/Monad: factory.begin() as a state monad with exceptions, and commit; Keeps and Ensures hold
--     the rules for invariants and for answers.
--   Application/Common: packages/application/common.py (lock_treasury, audit, review, enqueue,
--     execute_command).
--   Application/Finance: packages/application/finance.py (post, balance, treasury, capacity, reserve,
--     release, daily_commitments, settle_payment).
--   Application/OrderRules: packages/application/order_rules.py, and pause_listing of catalog.py.
--   Application/Catalog: packages/application/catalog.py (create_listing, inventory_guard).
--   Application/SupplierOperations: of packages/application/supplier_operations.py the frozen terms,
--     payability, batches, their sending and their answers, payment evidence and its confirmation, legacy
--     adoption, and the requests to cancel and their confirmation.
--   Application/PaymentEvidence: packages/application/payment_evidence.py.
--   Application/Risk: packages/application/risk.py (guard_cash_and_claims).
--   Application/Operations: of packages/application/operations.py the confirmations of operators, with
--     their receipts: funds, shipments, deliveries, claims, refunds, settlements and corrections.
--   Application/Commerce: packages/application/commerce.py.
--   Application/AfterSales: packages/application/after_sales.py.
--   Worker: apps/worker/main.py (tick, drain, replay).
--   Effects: the kinds of write that the operations are made of, as a record of what an invariant must
--     keep; the modules below it show each operation to be made of them. Effects/Ledger, Dispatch/Kept,
--     Life/Kept and Lines/Kept fill the record for the invariants. Sends holds the transactions that check
--     what they write: the dispatch of payments, and new batches (Lines/Batches).
--   Dispatch: payments whose dispatch began. Life: the state of one order. Lines: the active lines of the
--     supplier batches.
--   History: the modelled transactions in any order, and what holds after them.
--   Tests: a small shop, in which the theorems are applied.
--
-- Amounts that a constraint keeps from being negative are natural numbers, balances and deltas integers,
-- rates millionths, times seconds, identifiers numbers from one counter. The loop of required_price runs
-- on fuel, a million and two rounds, which is shown to be enough; drain has its own limit. The index
-- uq_active_supplier_batch_order of packages/infrastructure/schema_v2.py is left out of the
-- table: create_batch has checks of its own.
--
-- Not modelled: the web client, the HTTP routes, sessions and encryption, spreadsheets, migrations and
-- scripts; texts and JSON that a row only keeps for people to read; the set-up of users,
-- suppliers and listings by operators; marketplace cancellations and review resolution; the revalidation of a supplier order's original terms.
pub mod Base
pub mod Domain
pub mod Store
pub mod Application
pub mod Worker
pub mod Effects
pub mod Life
pub mod Lines
pub mod Dispatch
pub mod History
pub mod Tests
