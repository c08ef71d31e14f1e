-- ===== src/Application/Operations/Funds.antt =====
-- `funds` of packages/application/operations.py: the opening of the bank account, and the payment of a
-- supplier's deposit out of what the bank holds uncommitted.
pub mod Kept
use saup.Base.{
  ℕ, Bool, true, false, not, ◌||◌, ◌==◌, Option, some, none, List, [], ◌∷◌, pos, neg, ltb_ℤ,
}
use saup.Domain.Errors.{
  conflict, domain, validation, supplier_not_found, insufficient_uncommitted_bank,
  opening_requires_empty_ledger,
}
use saup.Domain.OperatorCommands.{FundsInput, funds_valid}
use saup.Domain.SupplierState.{Actor, require, admin}
use saup.Store.Db.{Db, Env}
use saup.Store.Keys.{
  bank, equity, deposit, receipt_key, opening_bank, supplier_deposit_paid, opening_bank_confirmed,
  supplier_deposit_confirmed, Target, whole_bank, on_reference, bank_evidence, reference_document,
  funds_document,
}
use saup.Store.Monad.{M, pure, raise, gets, lift, on_some, raise_when, ◌>>=◌, ◌>>◌}
use saup.Store.Tables.{find_supplier}
use saup.Application.Common.{lock_treasury}
use saup.Application.Finance.Ledger.{Entries, is_zero, balance, post}
use saup.Application.Finance.Treasury.{treasury}
use saup.Application.Operations.{receipt}

abbrev pub opening_entries : ℕ → Entries
opening_entries amount = (bank, pos amount) ∷ (equity, neg (pos amount)) ∷ []

abbrev pub deposit_entries : ℕ → ℕ → Entries
deposit_entries supplier_id amount =
    (deposit supplier_id, pos amount) ∷ (bank, neg (pos amount)) ∷ []

abbrev has_journals : Db → Bool
has_journals db = elim db.journals [ [] ↦ false | j ∷ journals ↦ true ]

unfoldable pub open_bank : Env → ℕ → M (Unit {0})
open_bank env amount = do
  held ← gets (balance bank)
  begun ← gets has_journals
  raise_when (not (is_zero held) || begun) (conflict opening_requires_empty_ledger)
  post env (receipt_key opening_bank_confirmed whole_bank) opening_bank (opening_entries amount)
      none

-- What moves to a deposit is neither reserved nor set aside.
unfoldable pub move_deposit : Env → ℕ → Target → ℕ → M (Unit {0})
move_deposit env supplier_id target amount = do
  position ← gets (treasury env supplier_id)
  raise_when (ltb_ℤ position.free_bank (pos amount)) (conflict insufficient_uncommitted_bank)
  post env (receipt_key supplier_deposit_confirmed target) supplier_deposit_paid
      (deposit_entries supplier_id amount) none

unfoldable pub fund_deposit : Env → ℕ → Target → ℕ → M (Unit {0})
fund_deposit env supplier_id target amount = do
  row ← gets (find_supplier supplier_id)
  on_some row (raise (domain supplier_not_found 404))
      (λ supplier. move_deposit env supplier_id target amount)

-- A supplier says whose deposit it is; without one the bank account is opened.
unfoldable pub funds : Env → FundsInput → Actor → Option ℕ → M ℕ
funds env cmd actor supplier_id = do
  lift (require actor admin)
  raise_when (not (funds_valid cmd)) validation
  lock_treasury
  on_some supplier_id
      (receipt env opening_bank_confirmed whole_bank bank_evidence cmd.evidence (funds_document cmd)
        actor (open_bank env cmd.amount))
      (λ i. do
        let target = on_reference i (env.fingerprint (reference_document cmd.evidence.reference))
        receipt env supplier_deposit_confirmed target bank_evidence cmd.evidence
            (funds_document cmd) actor (fund_deposit env i target cmd.amount))
