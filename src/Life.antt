-- ===== src/Life.antt =====
-- The life of one order under the transactions: its row stays, and its state goes along the edges of the
-- graph of states.
pub mod Kept
pub mod Runs
use saup.Base.{
  ℕ, ◌+◌, ◌<◌, ◌≡◌, refl, sym, ◌∙◌, Bool, true, false, ◌==◌, if◌then◌else◌, List, [], ◌∷◌, update,
  find?, Option, none, some, arith, Bool-cases, inl, inr, ◌⊎◌, subst,
}
use saup.Domain.OrderState.{OrderState}
use saup.Domain.OrderState.Graph.{◌⟶◌, is_final, final_edge}
use saup.Store.Db.{Db}
use saup.Store.Rows.{Order}
use saup.Store.Tables.{find_order}

-- Any number of edges.
infix 40 ◌⟶*◌
pub data ◌⟶*◌ : OrderState → OrderState → Type 0 where
  stay : {s : OrderState} → s ⟶* s
  on : {s t u : OrderState} → s ⟶* t → t ⟶ u → s ⟶* u

pub ⟶*-final : {s t : OrderState} → s ⟶* t → is_final s ≡ true → s ≡ t
⟶*-final stay final = refl
⟶*-final (on path edge) final =
    absurd (final_edge edge (subst (λ u. is_final u ≡ true) (⟶*-final path final) final))

abbrev pub has_id : ℕ → Order → Bool
has_id i o = o.id == i

-- The order `n`, whose state was `s`, is in the table, and its state was reached from `s`.
pub record Run (n : ℕ) (s : OrderState) (db : Db) : Type 0 where
  pub old : n < db.next_id
  pub order : Order
  pub found : find_order n db ≡ some order
  pub path : s ⟶* order.state

-- A write to another order.
pub find-update_other :
    (n i : ℕ) (g : Order → Order) (orders : List Order)
    → ((r : Order) → (g r).id ≡ r.id)
    → (i == n) ≡ false
    → find? (has_id n) (update (has_id i) g orders) ≡ find? (has_id n) orders
find-update_other n i g [] same differs = refl
find-update_other n i g (r ∷ orders) same differs =
    ground (arith, same r, find-update_other n i g orders same differs)
