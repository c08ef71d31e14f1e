-- ===== src/Dispatch.antt =====
-- A payment whose dispatch began, or that was cancelled, never goes back to a status from which
-- `dispatch` calls the provider.
pub mod Kept
pub mod Payments
pub mod Checks
pub mod Once
use saup.Base.{
  ℕ, ◌+◌, ◌<◌, ◌≡◌, refl, Bool, true, false, ◌==◌, if◌then◌else◌, List, [], ◌∷◌, update, find?,
  Option, none, some, arith,
}
use saup.Store.Db.{Db}
use saup.Store.Rows.{Payment, PaymentStatus}
use saup.Store.Monad.{M, modify, fresh, ◌>>=◌}
use saup.Store.Monad.Keeps.{
  Keeps, Keeps-pure, Keeps-raise, Keeps-gets, Keeps-lift, Keeps-present, Keeps-catch, Keeps-on_some,
  Keeps-if, Keeps-raise_when, Keeps-when, Keeps-bind, Keeps-for_each, Keeps-collect,
}
use saup.Store.Tables.{update_payment}
use saup.Effects.{is_gone}

abbrev pub gone_in : ℕ → List Payment → Bool
gone_in n [] = false
gone_in n (p ∷ payments) = if p.id == n then is_gone p.status else gone_in n payments

pub record Gone (n : ℕ) (db : Db) : Type 0 where
  pub old : n < db.next_id
  pub gone : gone_in n db.payments ≡ true

update-Gone :
    (n j : ℕ) (g : Payment → Payment) (payments : List Payment)
    → ((r : Payment) → (g r).id ≡ r.id)
    → ((r : Payment) → is_gone r.status ≡ true → is_gone (g r).status ≡ true)
    → gone_in n payments ≡ true
    → gone_in n (update (λ (r : Payment). r.id == j) g payments) ≡ true
update-Gone n j g [] same stays h = h
update-Gone n j g (p ∷ payments) same stays h =
    ground (arith, same p, stays p, update-Gone n j g payments same stays)

update-other :
    (n j : ℕ) (g : Payment → Payment) (payments : List Payment)
    → ((r : Payment) → (g r).id ≡ r.id)
    → (j == n) ≡ false
    → gone_in n payments ≡ true
    → gone_in n (update (λ (r : Payment). r.id == j) g payments) ≡ true
update-other n j g [] same differs h = h
update-other n j g (p ∷ payments) same differs h =
    ground (arith, same p, update-other n j g payments same differs)

module _ {n : ℕ} where
  pub Gone-elsewhere :
      (f : Db → Db)
      → ((db : Db) → n < db.next_id → n < (f db).next_id)
      → ((db : Db) → gone_in n db.payments ≡ true → gone_in n (f db).payments ≡ true)
      → Keeps (Gone n) (modify f)
  unfolding modify
  Gone-elsewhere f k l = record { at = λ db h. record { old = k db h.old; gone = l db h.gone } }

  pub Gone-update :
      (j : ℕ) (g : Payment → Payment)
      → ((r : Payment) → (g r).id ≡ r.id)
      → ((r : Payment) → is_gone r.status ≡ true → is_gone (g r).status ≡ true)
      → Keeps (Gone n) (update_payment j g)
  unfolding modify
  Gone-update j g same stays = record {
    at = λ db h. record { old = h.old; gone = update-Gone n j g db.payments same stays h.gone };
  }

  -- Another payment is written.
  pub Gone-other :
      (j : ℕ) (g : Payment → Payment)
      → ((r : Payment) → (g r).id ≡ r.id)
      → (j == n) ≡ false
      → Keeps (Gone n) (update_payment j g)
  unfolding modify
  Gone-other j g same differs = record {
    at = λ db h. record { old = h.old; gone = update-other n j g db.payments same differs h.gone };
  }

  pub Gone-fresh :
      {A : Type 0} (k : ℕ → M A)
      → ((j : ℕ) → n < j → Keeps (Gone n) (k j))
      → Keeps (Gone n) (fresh >>= k)
  unfolding ◌>>=◌
  Gone-fresh k l = record {
    at = λ db h.
        (l db.next_id h.old).at (record db { next_id = db.next_id + 1 })
          (record { old = grind (arith, h.old); gone = h.gone });
  }

  pub Gone-add :
      (p : Payment)
      → n < p.id
      → Keeps (Gone n) (modify (λ db. record db { payments = p ∷ db.payments }))
  unfolding modify
  Gone-add p younger = record {
    at = λ db h. record { old = h.old; gone = ground (arith, younger, h.gone) };
  }

pub ruleset gone_rules = (
  Keeps-pure, Keeps-raise, Keeps-gets, Keeps-lift, Keeps-present, Keeps-catch, Keeps-on_some,
  Keeps-if, Keeps-raise_when, Keeps-when, Gone-fresh, Keeps-bind, Keeps-for_each, Keeps-collect,
  Gone-elsewhere, Gone-update, Gone-add, refl,
)
