-- ===== src/Application/Finance/Reserve.antt =====
-- What `reserve` of packages/application/finance.py does to the cash that is available.
use saup.Base.{
  ℕ, ◌+◌, ◌-◌, ◌≤◌, ◌≡◌, min, true, false, ltb, ltb→ge, subst, ltb_ℤ, if◌then◌else◌, Option, none,
  some, ℤ, pos, ◌-ℤ◌, pos_part, int_laws, arith, ◌==◌, ◌&&◌,
}
use saup.Domain.Errors.{ok}
use saup.Domain.Pricing.{krw}
use saup.Store.Db.{Db, Env}
use saup.Store.Keys.{bank, deposit}
use saup.Store.Rows.{Order, SupplierProduct}
use saup.Store.Monad.{gets, modify, fresh, ◌>>=◌}
use saup.Store.Monad.Ensures.{Post, Post-found, Post-lift, Post-passed}
use saup.Store.Tables.{reservation_of}
use saup.Application.Finance.Ledger.{balance}
use saup.Application.Finance.Treasury.{treasury, reserve, short_of, bank_held, deposit_held}

-- `available_cash` from the two balances and what is held of them.
abbrev cash_of : ℤ → ℤ → ℕ → ℕ → ℕ → ℕ
cash_of in_bank in_deposit bank_held deposit_held reserves =
    let free = in_bank -ℤ pos bank_held -ℤ pos reserves in
    if ltb_ℤ free (pos 0) then 0 else pos_part free + pos_part (in_deposit -ℤ pos deposit_held)

cash_lowered :
    (in_bank in_deposit : ℤ) (bank_held deposit_held reserves amount : ℕ)
    → amount ≤ cash_of in_bank in_deposit bank_held deposit_held reserves
    → cash_of in_bank in_deposit
          (amount - min amount (pos_part (in_deposit -ℤ pos deposit_held)) + bank_held)
          (min amount (pos_part (in_deposit -ℤ pos deposit_held)) + deposit_held)
          reserves
        + amount
      ≡ cash_of in_bank in_deposit bank_held deposit_held reserves
cash_lowered in_bank in_deposit bank_held deposit_held reserves amount h = grind int_laws

abbrev pub spendable : Env → ℕ → Db → ℕ
spendable env supplier_id db = (treasury env supplier_id db).available_cash

own_deposit : (s d rest : ℕ) → d + rest ≡ (if s == s && true then d + rest else rest)
own_deposit s d rest = ground arith

-- What a new reservation leaves, by the balances and the sums of the reservations.
cash_left :
    (in_bank in_deposit : ℤ) (bank_held deposit_held reserves amount s : ℕ)
    → ltb (cash_of in_bank in_deposit bank_held deposit_held reserves) amount ≡ false
    → (let d = min amount (pos_part (in_deposit -ℤ pos deposit_held)) in
        cash_of in_bank in_deposit
          (amount - d + bank_held)
          (if s == s && true then d + deposit_held else deposit_held)
          reserves
        + amount)
      ≡ cash_of in_bank in_deposit bank_held deposit_held reserves
cash_left in_bank in_deposit bank_held deposit_held reserves amount s h =
    let d = min amount (pos_part (in_deposit -ℤ pos deposit_held)) in
    subst
      (λ t.
        cash_of in_bank in_deposit (amount - d + bank_held) t reserves + amount
        ≡ cash_of in_bank in_deposit bank_held deposit_held reserves)
      (own_deposit s d deposit_held)
      (cash_lowered in_bank in_deposit bank_held deposit_held reserves amount (ltb→ge _ _ h))

absurd_found : {A : Type 0} {Q : Type 0} {o : Option A} {a : A} → o ≡ none → o ≡ some a → Q
absurd_found missing found = cc

module _ (env : Env) (order : Order) (sp : SupplierProduct) (amount : ℕ) (db : Db) where
  lowers :
      reservation_of order.id db ≡ none
      → Post
          (λ _ after. spendable env sp.supplier_id after + amount ≡ spendable env sp.supplier_id db)
          (reserve env order sp amount db)
  unfolding reserve treasury balance ◌>>=◌ gets fresh modify
  lowers missing = Post-lift _ (krw (pos amount)) _ db λ _.
      Post-found _ (reservation_of order.id db) _ _ db
        (Post-passed _ (ltb (spendable env sp.supplier_id db) amount) _ _ db λ funded.
          Post-passed _ (short_of sp.stock order.quantity) _ _ db λ stocked.
            cash_left (balance bank db) (balance (deposit sp.supplier_id) db) (bank_held db)
              (deposit_held sp.supplier_id db)
              (env.safety_reserve + env.refund_reserve + env.tax_reserve) amount sp.supplier_id
              funded)
        (λ r found. absurd_found missing found)

-- A new reservation lowers the available cash by exactly its amount, so that no more is ever reserved
-- than was available.
pub reserve_lowers_cash :
    (env : Env) (order : Order) (sp : SupplierProduct) (amount : ℕ) (db after : Db)
    → reservation_of order.id db ≡ none
    → reserve env order sp amount db ≡ ok (tt, after)
    → spendable env sp.supplier_id after + amount ≡ spendable env sp.supplier_id db
reserve_lowers_cash env order sp amount db after missing reserved =
    subst
      (Post
        (λ _ later. spendable env sp.supplier_id later + amount ≡ spendable env sp.supplier_id db))
      reserved (lowers env order sp amount db missing)
