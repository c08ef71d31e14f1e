-- ===== src/Application/Finance/Treasury.antt =====
-- `treasury`, `capacity`, `reserve`, `release`, `daily_commitments` and `settle_payment` of
-- packages/application/finance.py.
use saup.Base.{
  ℕ, ◌+◌, ◌-◌, ◌*◌, ◌/◌, Bool, true, false, Option, none, some, [], ◌∷◌, sum_where, ◌==◌, ◌&&◌,
  ◌||◌, not, ltb, leb, min, if◌then◌else◌, ℤ, pos, ◌-ℤ◌, pos_part, ltb_ℤ, neg,
}
use saup.Domain.Errors.{
  Result, ok, err, conflict, insufficient_cash, out_of_stock, reservation_amount_changed,
  reservation_already_final, paid_reservation_cannot_be_released, payment_without_reservation,
  payment_reservation_mismatch, payment_would_overdraw_account,
}
use saup.Domain.Pricing.{krw}
use saup.Store.Db.{Db, Env}
use saup.Store.Keys.{bank, deposit, supplier_expense, payment_key, supplier_payment}
use saup.Store.Rows.{
  Reservation, ReservationStatus, held, spent, released, Payment, PaymentStatus, Receipt, Order,
  SupplierProduct, sold_out, low, available, StockStatus, system, cash_reserved,
  cash_reservation_released, supplier_payment_created,
}
use saup.Store.Monad.{
  M, pure, raise, gets, lift, modify, fresh, on_some, when, raise_when, ◌>>=◌, ◌>>◌,
}
use saup.Store.Tables.{
  reservation_of, fetch, find_order, find_listing, find_supplier_product, update_supplier_product,
  update_reservation, update_payment,
}
use saup.Application.Common.{audit}
use saup.Application.Finance.Ledger.{Entries, balance, post}

abbrev pub is_held : ReservationStatus → Bool
is_held held = true
is_held _ = false

-- `max(0, z)`
abbrev pub floor : ℤ → ℕ
floor z = pos_part z

abbrev pub bank_held : Db → ℕ
bank_held db =
    sum_where (λ (r : Reservation). is_held r.status) (λ r. r.bank_amount) db.reservations

abbrev pub deposit_held : ℕ → Db → ℕ
deposit_held supplier_id db =
    sum_where (λ (r : Reservation). r.supplier_id == supplier_id && is_held r.status)
      (λ r. r.deposit_amount) db.reservations

-- The parts of `treasury(s, settings, supplier_id)` that decisions read.
pub record Position : Type 0 where
  pub free_bank : ℤ
  pub supplier_deposit : ℤ
  pub supplier_deposit_committed : ℕ
  pub free_supplier_deposit : ℕ
  pub available_cash : ℕ

unfoldable pub treasury : Env → ℕ → Db → Position
unfolding balance
treasury env supplier_id db =
    let reserves = env.safety_reserve + env.refund_reserve + env.tax_reserve in
    let free = balance bank db -ℤ pos (bank_held db) -ℤ pos reserves in
    let held_deposit = deposit_held supplier_id db in
    let free_deposit = floor (balance (deposit supplier_id) db -ℤ pos held_deposit) in
    record {
      free_bank = free;
      supplier_deposit = balance (deposit supplier_id) db;
      supplier_deposit_committed = held_deposit;
      free_supplier_deposit = free_deposit;
      available_cash = if ltb_ℤ free (pos 0) then 0 else floor free + free_deposit;
    }

unfoldable pub capacity : Env → ℕ → ℤ → Db → Result ℕ
unfolding treasury krw
capacity env supplier_id cost_per_order db = elim (krw cost_per_order) [
  | err e ↦ err e
  | ok cost ↦ if cost == 0 then ok 0 else ok ((treasury env supplier_id db).available_cash / cost)
]

-- `stock is None or stock < quantity`
abbrev pub short_of : Option ℕ → ℕ → Bool
short_of none quantity = true
short_of (some n) quantity = ltb n quantity

abbrev pub take_stock : ℕ → SupplierProduct → SupplierProduct
take_stock quantity sp = elim sp.stock [
  | none ↦ sp
  | some n ↦
      let status : StockStatus = if n - quantity == 0 then sold_out else sp.stock_status in
      record sp { stock = some (n - quantity); stock_status = status }
]

unfoldable pub reserve : Env → Order → SupplierProduct → ℕ → M (Unit {0})
reserve env order sp amount = do
  lift (krw (pos amount))
  existing ← gets (reservation_of order.id)
  on_some existing
      (do
        position ← gets (treasury env sp.supplier_id)
        raise_when (ltb position.available_cash amount) (conflict insufficient_cash)
        raise_when (short_of sp.stock order.quantity) (conflict out_of_stock)
        let from_deposit = min amount position.free_supplier_deposit
        i ← fresh
        update_supplier_product sp.id (take_stock order.quantity)
        modify (λ db. record db {
          reservations =
              record {
                id = i;
                order_id = order.id;
                supplier_id = sp.supplier_id;
                bank_amount = amount - from_deposit;
                deposit_amount = from_deposit;
                status = held;
                inventory_snapshot_at = sp.last_inventory_at;
              }
              ∷ db.reservations;
        })
        audit cash_reserved order.id system)
      (λ r.
        if is_held r.status
        then raise_when (not (r.bank_amount + r.deposit_amount == amount))
            (conflict reservation_amount_changed)
        else raise (conflict reservation_already_final))

abbrev pub restock : ℕ → ℕ → SupplierProduct → SupplierProduct
restock quantity snapshot_at sp = elim sp.stock [
  | none ↦ sp
  | some n ↦
      if sp.last_inventory_at == snapshot_at
      then record sp {
        stock = some (n + quantity);
        stock_status = if ltb 5 (n + quantity) then available else low;
      }
      else sp
]

-- A held reservation is given up. Stock goes back only into the supplier's snapshot that it was
-- taken from.
unfoldable pub give_up : Order → Bool → Reservation → M (Unit {0})
give_up order restore_inventory r = do
  listing ← fetch (find_listing order.listing_id)
  sp ← fetch (find_supplier_product listing.supplier_product_id)
  when restore_inventory
      (update_supplier_product sp.id (restock order.quantity r.inventory_snapshot_at))
  update_reservation r.id (λ r. record r { status = released })
  audit cash_reservation_released order.id system

unfoldable pub release_row : Order → Bool → ReservationStatus → Reservation → M (Unit {0})
release_row order restore_inventory released r = pure tt
release_row order restore_inventory spent r = raise (conflict paid_reservation_cannot_be_released)
release_row order restore_inventory held r = give_up order restore_inventory r

unfoldable pub release : Order → Bool → M (Unit {0})
release order restore_inventory = do
  row ← gets (reservation_of order.id)
  on_some row (pure tt) (λ r. release_row order restore_inventory r.status r)

-- Seoul is nine hours ahead, all year: `t` moved there, and the midnight that begins its day.
abbrev pub seoul : ℕ → ℕ
seoul t = t + 32400

abbrev pub day_start : ℕ → ℕ
day_start t = seoul t / 86400 * 86400

abbrev pub sent_today : ℕ → Option ℕ → Bool
sent_today at none = false
sent_today at (some t) = leb (day_start at) (seoul t)

-- Payments that are under way, and those that succeeded today.
abbrev pub counts_today : ℕ → Payment → Bool
counts_today at p = elim p.status [
  | PaymentStatus.pending ↦ true
  | PaymentStatus.evidence_pending ↦ true
  | PaymentStatus.sending ↦ true
  | PaymentStatus.unknown ↦ true
  | PaymentStatus.succeeded ↦ sent_today at p.dispatched_at
  | PaymentStatus.manual_approval ↦ false
  | PaymentStatus.cancelled ↦ false
]

abbrev pub is_other : Option ℕ → ℕ → Bool
is_other none i = true
is_other (some excluded) i = not (i == excluded)

unfoldable pub daily_commitments : Option ℕ → ℕ → Db → ℕ
daily_commitments exclude_id at db =
    sum_where (λ (p : Payment). counts_today at p && is_other exclude_id p.id) (λ p. p.amount)
      db.payments

abbrev pub is_succeeded : PaymentStatus → Bool
is_succeeded PaymentStatus.succeeded = true
is_succeeded _ = false

-- What a payment takes: the expense, from the bank, and from the deposit with the supplier.
abbrev pub payment_entries : ℕ → Reservation → Entries
payment_entries amount r =
    (supplier_expense, pos amount)
    ∷ (bank, neg (pos r.bank_amount))
    ∷ (deposit r.supplier_id, neg (pos r.deposit_amount))
    ∷ []

-- The journal, and what follows from it.
unfoldable pub record_payment : Env → Payment → Receipt → ℕ → Reservation → M (Unit {0})
record_payment env payment provider_reference order_id r = do
  post env (payment_key payment.id) supplier_payment (payment_entries payment.amount r)
      (some order_id)
  update_reservation r.id (λ r. record r { status = spent })
  update_payment payment.id (λ p. record p {
    status = PaymentStatus.succeeded;
    provider_reference = some provider_reference;
  })
  audit supplier_payment_created order_id system

-- The money is taken from the reservation, which must be held and must be of the payment's amount.
unfoldable pub pay_out : Env → Payment → Receipt → ℕ → Reservation → M (Unit {0})
pay_out env payment provider_reference order_id r = do
  raise_when (not (is_held r.status)) (conflict payment_without_reservation)
  raise_when (not (r.bank_amount + r.deposit_amount == payment.amount))
      (conflict payment_reservation_mismatch)
  in_bank ← gets (balance bank)
  in_deposit ← gets (balance (deposit r.supplier_id))
  raise_when (ltb_ℤ in_bank (pos r.bank_amount) || ltb_ℤ in_deposit (pos r.deposit_amount))
      (conflict payment_would_overdraw_account)
  record_payment env payment provider_reference order_id r

unfoldable pub settle_payment : Env → Payment → Receipt → M (Unit {0})
settle_payment env payment provider_reference = if is_succeeded payment.status then pure tt else do
  order ← fetch (find_order payment.order_id)
  row ← gets (reservation_of order.id)
  on_some row (raise (conflict payment_without_reservation))
      (pay_out env payment provider_reference order.id)
