-- ===== src/Tests/Lines.antt =====
-- The lines of the shop's batches, and its commands and reports when they are repeated.
use saup.Base.{◌≡◌, refl, [], ◌∷◌, arith, ◌+ℤ◌, ◌-ℤ◌, neg, ◌↔◌}
use saup.Domain.Address.{is_valid}
use saup.Domain.Errors.{ok, err, conflict, supplier_send_conflict}
use saup.Domain.Pricing.{margin, krw, fee_for, rate, ceil_div}
use saup.Domain.OrderState
use saup.Domain.SupplierState
use saup.Domain.SupplierState.{require, validate_supplier_transition, operator}
use saup.Store.Db.{Db, Env}
use saup.Store.Keys.{batch_document, sending_document, account_eq}
use saup.Store.Monad.{commit, pure, ◌>>=◌, collect, for_each}
use saup.Application.Common.{execute_command, lock_treasury}
use saup.Application.Common.Repeats.{command_again}
use saup.Application.Finance.Treasury.{treasury}
use saup.Application.Finance.Ledger.{balance}
use saup.Application.OrderRules.{context}
use saup.Application.SupplierOperations.Terms.{
  intent, intervention_key_eq, validate_order, validate_frozen, supplier_transition, intervention,
}
use saup.Application.SupplierOperations.Cancel.{present_order}
use saup.Application.SupplierOperations.Batches.{
  new_batch, check_profile, batch_line, export_orders, present_line, present_batch, add_batch,
  add_line, insert_item,
}
use saup.Application.SupplierOperations.Sending.{
  mark_sent, send_batch, send_line, export_batch, first_export, export_line,
}
use saup.Application.SupplierOperations.Sending.Repeats.{mark_sent_again}
use saup.Application.SupplierOperations.Acknowledge.{check_answer}
use saup.Application.SupplierOperations.Acknowledge.Coverage.{IsAnswer, check_answer_iff}
use saup.History.{history}
use saup.Lines.{HasOneActive}
use saup.Lines.Histories.{history-HasOneActive}
use saup.Tests.Shop.{env}
use saup.Tests.Files.{worker, file_shop, new_file, by_mail, all_taken, file_steps}

history-HasOneActive_example : HasOneActive (history file_steps file_shop)
history-HasOneActive_example =
    history-HasOneActive file_steps file_shop (record { at_most = λ so_id. ground arith })

abbrev made : Db
made =
    (commit (execute_command env 1 1 8 (batch_document new_file) (new_batch env new_file worker))
      file_shop).1

made_lem :
    execute_command env 1 1 8 (batch_document new_file) (new_batch env new_file worker) file_shop
    ≡ ok (100, made)
unfolding commit execute_command new_batch check_profile collect for_each batch_line export_orders
    present_line present_order add_batch add_line insert_item intent validate_order validate_frozen
    supplier_transition intervention context treasury balance is_valid margin krw fee_for rate
    ceil_div account_eq validate_supplier_transition SupplierState.transitions ◌>>=◌ ◌+ℤ◌ ◌-ℤ◌ neg
    OrderState.same SupplierState.same SupplierState.is_allowed
made_lem = refl

-- The command comes again with its key, for another action.
command_again_example :
    execute_command env 1 1 8 (batch_document new_file) (pure 0) made ≡ ok (100, made)
command_again_example =
    command_again env 1 1 8 (batch_document new_file) (batch_document new_file)
      (new_batch env new_file worker) (pure 0) file_shop made 100 made_lem

-- A hash that tells reports apart.
abbrev apart : Env
apart = record env {
  fingerprint = λ d. elim d [ sending_document cmd ↦ cmd.send_reference | _ ↦ 7 ];
}

abbrev downloaded : Db
downloaded = (commit (export_batch env 100 worker) made).1

abbrev reported : Db
reported = (commit (mark_sent apart 100 by_mail worker) downloaded).1

reported_lem : mark_sent apart 100 by_mail worker downloaded ≡ ok (tt, reported)
unfolding commit export_batch first_export export_line mark_sent send_batch send_line collect
    for_each present_line present_order present_batch supplier_transition intervention account_eq
    require lock_treasury validate_supplier_transition SupplierState.transitions ◌>>=◌
    SupplierState.same SupplierState.is_allowed execute_command new_batch check_profile batch_line
    export_orders add_batch add_line insert_item intent validate_order validate_frozen context
    treasury balance is_valid margin krw fee_for rate ceil_div ◌+ℤ◌ ◌-ℤ◌ neg OrderState.same
    intervention_key_eq
reported_lem = refl

-- The batch is reported again, under another reference.
mark_sent_again_example :
    mark_sent apart 100 (record by_mail { send_reference = 4 }) worker reported
    ≡ err (conflict supplier_send_conflict)
unfolding require
mark_sent_again_example =
    mark_sent_again apart apart 100 by_mail (record by_mail { send_reference = 4 }) worker worker
      downloaded reported reported_lem refl

check_answer_iff_example :
    (check_answer all_taken (13 ∷ []) file_shop ≡ ok (tt, file_shop)) ↔ IsAnswer all_taken (13 ∷ [])
check_answer_iff_example = check_answer_iff all_taken (13 ∷ []) file_shop
