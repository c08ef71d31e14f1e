-- ===== src/Tests/Receipts.antt =====
-- A deposit that is paid and confirmed twice, and a statement that is taken back.
use saup.Base.{◌≡◌, refl, none, false, pos, negsuc, ◌+ℤ◌, ◌-ℤ◌, neg}
use saup.Domain.Errors.{ok, err, conflict, confirmation_conflict}
use saup.Domain.OperatorCommands.{Evidence, FundsInput, SettlementCorrection, replacement_statement}
use saup.Domain.SupplierState.{Actor, admin}
use saup.Store.Db.{Db, Env}
use saup.Store.Keys.{
  supplier_deposit_confirmed, Target, on_reference, bank_evidence, funds_document, account_eq,
  Correction, correction_key, settlement_key, reverse_statement, reverse_adjustment, new_adjustment,
  new_statement, settlement_statement, settlement_reversal, settlement_variance, journal_key_eq,
}
use saup.Store.Monad.{commit, for_each, when, ◌>>=◌}
use saup.Application.Finance.Ledger.{
  post, balance, sorted, nonzero, total, over_limit, write_journal, insert_entry, apply_entry,
}
use saup.Application.Finance.Ledger.Post.{find_journal}
use saup.Application.Finance.Treasury.{treasury}
use saup.Application.SupplierOperations.Terms.{intervention}
use saup.Application.AfterSales.Settlements.{statement_entries}
use saup.Application.Operations.{receipt, new_receipt, unused_evidence, insert_receipt}
use saup.Application.Operations.Funds.{fund_deposit, move_deposit}
use saup.Application.Operations.Repeats.{receipt_again}
use saup.Application.Operations.Settlements.{reversal_entries, rebook}
use saup.Application.Operations.Settlements.Reversal.{reversal_undoes}
use saup.Application.Operations.Settlements.Rebook.{rebook_moves}
use saup.Application.Operations.Settlements.Amounts.{settled_by}
use saup.Store.CaseRows.{Settlement}
use saup.Tests.Shop.{env, shop}

abbrev owner : Actor
owner = record { name = 6; name_length = 5; role = admin }

-- A hash that tells amounts apart.
abbrev apart : Env
apart = record env { fingerprint = λ d. elim d [ funds_document cmd ↦ cmd.amount | _ ↦ 7 ] }

abbrev shown : Evidence
shown = record { reference = 31; evidence_hash = 32 }

abbrev paid_in : FundsInput
paid_in = record { evidence = shown; amount = 1000 }

abbrev to_supplier : Target
to_supplier = on_reference 18 7

abbrev funded : Db
funded =
    (commit
      (receipt apart supplier_deposit_confirmed to_supplier bank_evidence shown
        (funds_document paid_in) owner (fund_deposit apart 18 to_supplier 1000))
      shop).1

funded_lem :
    receipt apart supplier_deposit_confirmed to_supplier bank_evidence shown
      (funds_document paid_in)
      owner
      (fund_deposit apart 18 to_supplier 1000)
      shop
    ≡ ok (101, funded)
unfolding commit receipt new_receipt unused_evidence insert_receipt fund_deposit move_deposit
    treasury post balance sorted nonzero total over_limit write_journal insert_entry apply_entry
    for_each intervention account_eq ◌>>=◌ ◌+ℤ◌ ◌-ℤ◌ neg
funded_lem = refl

-- The same transfer again, with another amount.
receipt_again_example :
    receipt apart supplier_deposit_confirmed to_supplier bank_evidence shown
      (funds_document (record paid_in { amount = 2000 }))
      owner
      (fund_deposit apart 18 to_supplier 2000)
      funded
    ≡ err (conflict confirmation_conflict)
receipt_again_example =
    receipt_again apart apart supplier_deposit_confirmed to_supplier bank_evidence bank_evidence
      shown shown (funds_document paid_in) (funds_document (record paid_in { amount = 2000 })) owner
      owner (fund_deposit apart 18 to_supplier 1000) (fund_deposit apart 18 to_supplier 2000) shop
      funded 101 funded_lem

abbrev stated : Db
stated =
    (commit (post env (settlement_key 40) settlement_statement (statement_entries 1000 900) none)
      shop).1

abbrev taken_back : Db
taken_back =
    (commit
      (post env (correction_key 40 1 reverse_statement) settlement_reversal
        (reversal_entries 1000 900) none)
      stated).1

stated_lem :
    post env (settlement_key 40) settlement_statement (statement_entries 1000 900) none shop
    ≡ ok (tt, stated)
unfolding commit post sorted nonzero total over_limit write_journal insert_entry apply_entry
    for_each ◌>>=◌ ◌+ℤ◌ ◌-ℤ◌ neg
stated_lem = refl

taken_back_lem :
    post env
      (correction_key 40 1 reverse_statement)
      settlement_reversal
      (reversal_entries 1000 900)
      none
      stated
    ≡ ok (tt, taken_back)
unfolding commit post sorted nonzero total over_limit write_journal insert_entry apply_entry
    for_each ◌>>=◌ ◌+ℤ◌ ◌-ℤ◌ neg journal_key_eq
taken_back_lem = refl

reversal_undoes_example : balance settlement_variance taken_back ≡ balance settlement_variance shop
unfolding journal_key_eq commit post ◌>>=◌ sorted nonzero neg ◌-ℤ◌ total ◌+ℤ◌ over_limit
    write_journal for_each apply_entry
reversal_undoes_example =
    reversal_undoes env env (settlement_key 40) (correction_key 40 1 reverse_statement) 1000 900
      none shop stated taken_back refl stated_lem refl taken_back_lem settlement_variance

abbrev settled : Settlement
settled = record {
  id = 40;
  order_id = 100;
  external_id = 41;
  expected = 1000;
  actual = 900;
  adjustment = pos 0;
  input_hash = 42;
  confirmed_cash = false;
}

-- The marketplace has paid 980 and withheld 20.
abbrev statement_corrected : SettlementCorrection
statement_corrected = record {
  evidence = shown;
  reference_length = 9;
  external_id = 43;
  actual = 980;
  adjustment = negsuc 19;
  expected_revision = 0;
  reason = replacement_statement;
}

abbrev rebooked : Db
rebooked = (commit (rebook env statement_corrected settled 1 980) stated).1

rebooked_lem : rebook env statement_corrected settled 1 980 stated ≡ ok (tt, rebooked)
unfolding rebook commit post sorted nonzero total over_limit write_journal insert_entry apply_entry
    for_each ◌>>=◌ ◌+ℤ◌ ◌-ℤ◌ neg journal_key_eq when
rebooked_lem = refl

no_correction : (s : Correction) → find_journal (correction_key 40 1 s) stated ≡ none
unfolding journal_key_eq commit post ◌>>=◌ sorted nonzero neg ◌-ℤ◌ total ◌+ℤ◌ over_limit
    write_journal for_each apply_entry insert_entry
no_correction reverse_statement = refl
no_correction reverse_adjustment = refl
no_correction new_adjustment = refl
no_correction new_statement = refl

rebook_moves_example :
    balance settlement_variance rebooked
      +ℤ settled_by settlement_variance settled.expected settled.actual settled.adjustment
    ≡ balance settlement_variance stated
      +ℤ settled_by settlement_variance 980 statement_corrected.actual
          statement_corrected.adjustment
rebook_moves_example =
    rebook_moves env statement_corrected settled 1 980 settlement_variance stated rebooked
      no_correction rebooked_lem
