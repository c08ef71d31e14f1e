-- ===== src/Application/Operations/Funds/Kept.antt =====
-- What the payment of a deposit does to the ledger.
use saup.Base.{ℕ, ◌≡◌, false, none, ltb_ℤ, pos, int_laws}
use saup.Store.Db.{Db, Env}
use saup.Store.Keys.{bank, deposit, Target, account_eq}
use saup.Store.Monad.Keeps.{Keeps, Outcome-after, Outcome-gets}
use saup.Application.Frame.{frame_rules}
use saup.Application.Finance.Ledger.Balance.{balance-eq}
use saup.Application.Finance.Ledger.Post.{
  IsBalanced, IsSolvent, Funds, post-IsBalanced, post_funded,
}
use saup.Application.Finance.Ledger.Once.{HasDistinctKeys, post-HasDistinctKeys}
use saup.Application.Finance.Treasury.{treasury}
use saup.Application.Operations.Funds.{deposit_entries, move_deposit}

pub move_deposit-IsBalanced :
    (env : Env) (supplier_id : ℕ) (target : Target) (amount : ℕ)
    → Keeps IsBalanced (move_deposit env supplier_id target amount)
unfolding move_deposit
move_deposit-IsBalanced env supplier_id target amount =
    search (frame_rules, post-IsBalanced) depth 12

pub move_deposit-HasDistinctKeys :
    (env : Env) (supplier_id : ℕ) (target : Target) (amount : ℕ)
    → Keeps HasDistinctKeys (move_deposit env supplier_id target amount)
unfolding move_deposit
move_deposit-HasDistinctKeys env supplier_id target amount =
    search (frame_rules, post-HasDistinctKeys) depth 12

-- What is free in the bank is less than its balance.
covered :
    (env : Env) (supplier_id amount : ℕ) (db : Db)
    → IsSolvent db
    → ltb_ℤ ((treasury env supplier_id db).free_bank) (pos amount) ≡ false
    → Funds (deposit_entries supplier_id amount) db
unfolding account_eq treasury
covered env supplier_id amount db h checked bank cash =
    grind (int_laws, h.ledger.funded bank cash, balance-eq bank db)
covered env supplier_id amount db h checked (deposit s) cash =
    grind (int_laws, h.ledger.funded (deposit s) cash)
covered env supplier_id amount db h checked c cash = cc

pub move_deposit-IsSolvent :
    (env : Env) (supplier_id : ℕ) (target : Target) (amount : ℕ)
    → Keeps IsSolvent (move_deposit env supplier_id target amount)
unfolding move_deposit
move_deposit-IsSolvent env supplier_id target amount = record {
  at = λ db h. Outcome-gets IsSolvent (treasury env supplier_id) _ db (
      Outcome-after IsSolvent _ _ _ db λ checked.
        post_funded env _ _ (deposit_entries supplier_id amount) none db h
          (covered env supplier_id amount db h checked));
}
