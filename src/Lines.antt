-- ===== src/Lines.antt =====
-- The active lines of the supplier batches: how many a supplier order has.
pub mod Kept
pub mod Added
pub mod Batches
pub mod Histories
use saup.Base.{
  ℕ, ◌+◌, ◌≤◌, ◌≡◌, refl, Bool, true, false, not, ◌&&◌, ◌==◌, if◌then◌else◌, List, [], ◌∷◌, ◌++◌,
  map, find?, Option, none, some, arith,
}
use saup.Store.Db.{Db}
use saup.Store.CaseRows.{BatchItem}
use saup.Application.SupplierOperations.Terms.{active_item}
use saup.Application.SupplierOperations.Request.{is_none}

abbrev pub is_active_for : ℕ → BatchItem → Bool
is_active_for so_id item = item.supplier_order_id == so_id && item.active

abbrev pub active_lines : ℕ → List BatchItem → ℕ
active_lines so_id [] = 0
active_lines so_id (item ∷ items) =
    let rest = active_lines so_id items in if is_active_for so_id item then rest + 1 else rest

pub record HasOneActive (db : Db) : Type 0 where
  pub at_most : (so_id : ℕ) → active_lines so_id db.batch_items ≤ 1

-- The supplier orders of `S` have no active line yet, and no supplier order has two.
pub record Waiting (S : ℕ → Bool) (db : Db) : Type 0 where
  pub one : HasOneActive db
  pub free : (so_id : ℕ) → S so_id ≡ true → active_lines so_id db.batch_items ≡ 0

abbrev pub nobody : ℕ → Bool
nobody so_id = false

pub fewer :
    (S T : ℕ → Bool) (db : Db)
    → ((so_id : ℕ) → T so_id ≡ true → S so_id ≡ true)
    → Waiting S db
    → Waiting T db
fewer S T db sub h = record { one = h.one; free = λ so_id waits. h.free so_id (sub so_id waits) }

pub no_lines :
    (so_id : ℕ) (items : List BatchItem)
    → is_none (find? (is_active_for so_id) items) ≡ true
    → active_lines so_id items ≡ 0
no_lines so_id [] h = refl
no_lines so_id (item ∷ items) h = ground (arith, no_lines so_id items)

-- A new line counts for its own supplier order only.
pub append_line :
    (so_id : ℕ) (items : List BatchItem) (item : BatchItem)
    → active_lines so_id (items ++ item ∷ [])
      ≡ active_lines so_id items + (if is_active_for so_id item then 1 else 0)
append_line so_id [] item = ground arith
append_line so_id (r ∷ items) item = ground (arith, append_line so_id items item)

-- Lines that are not made active again do not become more.
pub map_lines :
    (so_id : ℕ) (test : BatchItem → Bool) (g : BatchItem → BatchItem) (items : List BatchItem)
    → ((r : BatchItem) → (g r).supplier_order_id ≡ r.supplier_order_id)
    → ((r : BatchItem) → (g r).active ≡ true → r.active ≡ true)
    → active_lines so_id (map (λ (r : BatchItem). if test r then g r else r) items)
      ≤ active_lines so_id items
map_lines so_id test g [] same stays = ground arith
map_lines so_id test g (r ∷ items) same stays =
    ground (arith, same r, stays r, map_lines so_id test g items same stays)
