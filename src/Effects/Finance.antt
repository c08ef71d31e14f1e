-- ===== src/Effects/Finance.antt =====
-- Reserving money and giving it up again.
use saup.Base.{ℕ, Bool}
use saup.Store.Db.{Db, Env}
use saup.Store.Rows.{Order, SupplierProduct, Reservation, ReservationStatus, held, spent, released}
use saup.Store.Monad.Keeps.{Keeps}
use saup.Effects.{Effects, effect_rules}
use saup.Application.Finance.Treasury.{reserve, give_up, release_row, release}

module _ {P : Db → Type 0} ⦃effects : Effects P⦄ where
  pub reserve-keeps :
      (env : Env) (o : Order) (v : SupplierProduct) (i : ℕ) → Keeps P (reserve env o v i)
  unfolding reserve
  reserve-keeps env o v i = search (effect_rules) depth 24

  pub give_up-keeps : (o : Order) (b : Bool) (v : Reservation) → Keeps P (give_up o b v)
  unfolding give_up
  give_up-keeps o b v = search (effect_rules) depth 24

  pub release_row-keeps :
      (o : Order) (b : Bool) (v : ReservationStatus) (v_2 : Reservation)
      → Keeps P (release_row o b v v_2)
  unfolding release_row
  release_row-keeps o b released v_2 = search (effect_rules) depth 24
  release_row-keeps o b spent v_2 = search (effect_rules) depth 24
  release_row-keeps o b held v_2 = search (effect_rules, give_up-keeps) depth 24

  pub release-keeps : (o : Order) (b : Bool) → Keeps P (release o b)
  unfolding release
  release-keeps o b = search (effect_rules, release_row-keeps) depth 24
