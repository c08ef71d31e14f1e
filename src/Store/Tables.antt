-- ===== src/Store/Tables.antt =====
-- Looking rows up by their identifier (`s.get`), and the writes of one table, each an assignment to
-- the attributes of a row that was looked up, or `s.add`.
use saup.Base.{ℕ, Bool, Option, find?, update, map, if◌then◌else◌, ◌==◌}
use saup.Store.Db.{Db}
use saup.Store.Monad.{M, gets, present, modify, ◌>>=◌}
use saup.Store.Rows.{
  Order, Payment, SupplierOrder, Listing, SupplierProduct, Supplier, Product, Reservation, Shipment,
  Job,
}
use saup.Store.CaseRows.{Claim, Refund, Settlement, Batch, BatchItem}

abbrev pub find_order : ℕ → Db → Option Order
find_order i db = find? (λ (r : Order). r.id == i) db.orders

abbrev pub find_payment : ℕ → Db → Option Payment
find_payment i db = find? (λ (r : Payment). r.id == i) db.payments

abbrev pub find_supplier_order : ℕ → Db → Option SupplierOrder
find_supplier_order i db = find? (λ (r : SupplierOrder). r.id == i) db.supplier_orders

abbrev pub find_listing : ℕ → Db → Option Listing
find_listing i db = find? (λ (r : Listing). r.id == i) db.listings

abbrev pub find_supplier_product : ℕ → Db → Option SupplierProduct
find_supplier_product i db = find? (λ (r : SupplierProduct). r.id == i) db.supplier_products

abbrev pub find_supplier : ℕ → Db → Option Supplier
find_supplier i db = find? (λ (r : Supplier). r.id == i) db.suppliers

abbrev pub find_product : ℕ → Db → Option Product
find_product i db = find? (λ (r : Product). r.id == i) db.products

abbrev pub find_claim : ℕ → Db → Option Claim
find_claim i db = find? (λ (r : Claim). r.id == i) db.claims

abbrev pub find_refund : ℕ → Db → Option Refund
find_refund i db = find? (λ (r : Refund). r.id == i) db.refunds

abbrev pub find_settlement : ℕ → Db → Option Settlement
find_settlement i db = find? (λ (r : Settlement). r.id == i) db.settlements

abbrev pub find_batch : ℕ → Db → Option Batch
find_batch i db = find? (λ (r : Batch). r.id == i) db.batches

-- `select(Reservation).where(Reservation.order_id == i)`; the column is unique.
abbrev pub reservation_of : ℕ → Db → Option Reservation
reservation_of i db = find? (λ (r : Reservation). r.order_id == i) db.reservations

-- `select(Payment).where(Payment.order_id == i)`; the column is unique.
abbrev pub payment_of : ℕ → Db → Option Payment
payment_of i db = find? (λ (r : Payment). r.order_id == i) db.payments

-- `select(SupplierOrder).where(SupplierOrder.order_id == i)`; the column is unique.
abbrev pub supplier_order_of : ℕ → Db → Option SupplierOrder
supplier_order_of i db = find? (λ (r : SupplierOrder). r.order_id == i) db.supplier_orders

-- The row of `s.get`, whose attributes the code goes on to read.
abbrev pub fetch : {A : Type 0} → (Db → Option A) → M A
fetch f = gets f >>= present

abbrev pub update_order : ℕ → (Order → Order) → M (Unit {0})
update_order i g =
    modify (λ db. record db { orders = update (λ (r : Order). r.id == i) g db.orders })

abbrev pub update_payment : ℕ → (Payment → Payment) → M (Unit {0})
update_payment i g =
    modify (λ db. record db { payments = update (λ (r : Payment). r.id == i) g db.payments })

abbrev pub update_supplier_order : ℕ → (SupplierOrder → SupplierOrder) → M (Unit {0})
update_supplier_order i g = modify (λ db. record db {
  supplier_orders = update (λ (r : SupplierOrder). r.id == i) g db.supplier_orders;
})

abbrev pub update_listing : ℕ → (Listing → Listing) → M (Unit {0})
update_listing i g =
    modify (λ db. record db { listings = update (λ (r : Listing). r.id == i) g db.listings })

abbrev pub update_supplier_product : ℕ → (SupplierProduct → SupplierProduct) → M (Unit {0})
update_supplier_product i g = modify (λ db. record db {
  supplier_products = update (λ (r : SupplierProduct). r.id == i) g db.supplier_products;
})

abbrev pub update_reservation : ℕ → (Reservation → Reservation) → M (Unit {0})
update_reservation i g =
    modify
      (λ db. record db { reservations = update (λ (r : Reservation). r.id == i) g db.reservations })

abbrev pub update_shipment : ℕ → (Shipment → Shipment) → M (Unit {0})
update_shipment i g =
    modify (λ db. record db { shipments = update (λ (r : Shipment). r.id == i) g db.shipments })

abbrev pub update_job : ℕ → (Job → Job) → M (Unit {0})
update_job i g = modify (λ db. record db { jobs = update (λ (r : Job). r.id == i) g db.jobs })

abbrev pub update_claim : ℕ → (Claim → Claim) → M (Unit {0})
update_claim i g =
    modify (λ db. record db { claims = update (λ (r : Claim). r.id == i) g db.claims })

abbrev pub update_refund : ℕ → (Refund → Refund) → M (Unit {0})
update_refund i g =
    modify (λ db. record db { refunds = update (λ (r : Refund). r.id == i) g db.refunds })

abbrev pub update_settlement : ℕ → (Settlement → Settlement) → M (Unit {0})
update_settlement i g =
    modify
      (λ db. record db { settlements = update (λ (r : Settlement). r.id == i) g db.settlements })

abbrev pub update_batch : ℕ → (Batch → Batch) → M (Unit {0})
update_batch i g =
    modify (λ db. record db { batches = update (λ (r : Batch). r.id == i) g db.batches })

-- A write to every line that passes a test.
unfoldable pub update_lines : (BatchItem → Bool) → (BatchItem → BatchItem) → M (Unit {0})
update_lines test g = modify (λ db. record db {
  batch_items = map (λ (r : BatchItem). if test r then g r else r) db.batch_items;
})
