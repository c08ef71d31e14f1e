-- ===== src/Tests/Ledger.antt =====
-- The shop's ledger.
use saup.Base.{◌≡◌, refl, true, arith, [], ◌∷◌, none, some, pos, negsuc, ◌+ℤ◌}
use saup.Domain.Errors.{ok}
use saup.Store.Db.{Db, Env}
use saup.Store.Keys.{AccountCode, JournalKind, JournalKey, account_eq, journal_document}
use saup.Store.Monad.{commit, for_each, ◌>>=◌}
use saup.Application.Finance.Ledger.{
  Entries, post, balance, sorted, nonzero, total, over_limit, write_journal, insert_entry,
  apply_entry,
}
use saup.Application.Finance.Ledger.Balance.{balance_in, posted}
use saup.Application.Finance.Ledger.Post.{IsBalanced, IsSolvent, post_new}
use saup.Application.Finance.Ledger.Again.{is_refused, post_again}
use saup.Application.Finance.Ledger.Once.{HasDistinctKeys}
use saup.History.{history}
use saup.History.Ledger.{history-IsBalanced, history-IsSolvent, history-HasDistinctKeys}
use saup.Tests.Shop.{env, shop, paid_steps}

shop-agrees : (c : AccountCode) → balance_in c shop.accounts ≡ posted c shop.postings
unfolding account_eq ◌+ℤ◌
shop-agrees AccountCode.control = refl
shop-agrees AccountCode.bank = refl
shop-agrees AccountCode.equity = refl
shop-agrees AccountCode.supplier_expense = refl
shop-agrees AccountCode.marketplace_receivable = refl
shop-agrees AccountCode.revenue = refl
shop-agrees AccountCode.marketplace_fees = refl
shop-agrees AccountCode.promotion_expense = refl
shop-agrees AccountCode.refund_expense = refl
shop-agrees AccountCode.supplier_recovery = refl
shop-agrees AccountCode.settlement_clearing = refl
shop-agrees AccountCode.settlement_variance = refl
shop-agrees (AccountCode.deposit s) = refl

shop-IsBalanced : IsBalanced shop
unfolding ◌+ℤ◌
shop-IsBalanced = record { ledger = record { sums = refl; agrees = shop-agrees } }

shop-IsSolvent : IsSolvent shop
unfolding account_eq
shop-IsSolvent = record { ledger = record { funded = λ c cash. ground arith } }

shop-HasDistinctKeys : HasDistinctKeys shop
shop-HasDistinctKeys = record { ledger = record { once = λ key. ground arith } }

history-IsBalanced_example : IsBalanced (history paid_steps shop)
history-IsBalanced_example = history-IsBalanced paid_steps shop shop-IsBalanced

history-IsSolvent_example : IsSolvent (history paid_steps shop)
history-IsSolvent_example = history-IsSolvent paid_steps shop shop-IsSolvent

history-HasDistinctKeys_example : HasDistinctKeys (history paid_steps shop)
history-HasDistinctKeys_example = history-HasDistinctKeys paid_steps shop shop-HasDistinctKeys

abbrev entries : Entries
entries = (AccountCode.bank, negsuc 299) ∷ (AccountCode.deposit 18, pos 300) ∷ []

abbrev moved : Db
moved =
    (commit (post env (JournalKey.adjustment_key 1) JournalKind.marketplace_adjustment entries none)
      shop).1

moved_lem :
    post env (JournalKey.adjustment_key 1) JournalKind.marketplace_adjustment entries none shop
    ≡ ok (tt, moved)
unfolding commit post sorted nonzero total over_limit write_journal insert_entry apply_entry
    for_each ◌>>=◌ ◌+ℤ◌
moved_lem = refl

post_new_example :
    balance AccountCode.bank moved ≡ negsuc 299 +ℤ pos 0 +ℤ balance AccountCode.bank shop
unfolding account_eq ◌+ℤ◌
post_new_example =
    post_new env (JournalKey.adjustment_key 1) JournalKind.marketplace_adjustment entries none shop
      moved refl moved_lem AccountCode.bank

-- A hash that tells the orders of journals apart.
abbrev by_order : Env
by_order = record env {
  fingerprint =
      λ d. elim d [ journal_document kind rows o ↦ elim o [ none ↦ 7 | some i ↦ i ] | _ ↦ 0 ];
}

moved_by_order :
    post by_order (JournalKey.adjustment_key 1) JournalKind.marketplace_adjustment entries none shop
    ≡ ok (tt, moved)
unfolding commit post sorted nonzero total over_limit write_journal insert_entry apply_entry
    for_each ◌>>=◌ ◌+ℤ◌
moved_by_order = refl

post_again_example :
    (post by_order
        (JournalKey.adjustment_key 1)
        JournalKind.marketplace_adjustment
        entries
        none
        moved
      ≡ ok (tt, moved))
    × (is_refused (
          post by_order
            (JournalKey.adjustment_key 1)
            JournalKind.marketplace_adjustment
            entries
            (some 100)
            moved)
        ≡ true)
post_again_example =
    post_again by_order (JournalKey.adjustment_key 1) JournalKind.marketplace_adjustment
      JournalKind.marketplace_adjustment entries entries none (some 100) shop moved moved_by_order
      refl
