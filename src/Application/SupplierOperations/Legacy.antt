-- ===== src/Application/SupplierOperations/Legacy.antt =====
-- `adopt_verified_unsent_legacy` of packages/application/supplier_operations.py.
use saup.Base.{ℕ, Bool, true, not, ◌||◌, ◌==◌, some, [], ◌∷◌, any}
use saup.Domain.Errors.{conflict, legacy_order_not_adoptable, legacy_supplier_state_unverified}
use saup.Domain.OrderState.{OrderState}
use saup.Domain.OrderState
use saup.Domain.SupplierState.{SupplierState, Actor, require, admin}
use saup.Domain.SupplierState
use saup.Store.Db.{Db, Env}
use saup.Store.Keys.{by_code, confirmation_document}
use saup.Store.Rows.{Event, Payment, user}
use saup.Store.CaseRows.{Cancellation, InterventionKey}
use saup.Store.Monad.{M, pure, gets, lift, raise_when, ◌>>=◌, ◌>>◌}
use saup.Application.Common.{audit, execute_command, lock_treasury}
use saup.Application.Commerce.Intake.{is_excel}
use saup.Application.SupplierOperations.Batches.{present_line}
use saup.Application.SupplierOperations.Cancel.{present_order}
use saup.Application.SupplierOperations.Request.{is_none}
use saup.Application.SupplierOperations.Terms.{
  freeze_intent, intent_of, intervention, resolve_reviews, supplier_transition, validate_frozen,
  validate_order,
}

-- Nothing that comes after a supplier order was made for it.
abbrev is_untouched : ℕ → Db → Bool
is_untouched so_id db = not (
    not (is_none (intent_of so_id db))
    || any (λ (p : Payment). p.supplier_order_id == so_id) db.payments
    || any (λ (r : Cancellation). r.supplier_order_id == so_id) db.cancellations)

-- The command's action: the terms are frozen now, and the supplier order waits for a batch.
unfoldable pub adopt_legacy : Env → ℕ → Actor → M ℕ
adopt_legacy env so_id actor = do
  so ← present_order so_id
  order ← present_line so.order_id
  untouched ← gets (is_untouched so.id)
  raise_when
      (not (SupplierState.same so.status SupplierState.manual_review)
        || not (OrderState.same order.state OrderState.supplier_order_pending)
        || order.cancel_requested
        || not untouched)
      (conflict legacy_order_not_adoptable)
  quote ← validate_order env order.id true
  raise_when (not (is_excel quote.at.supplier.mode) || not (quote.cost == so.amount))
      (conflict legacy_order_not_adoptable)
  freeze_intent env order.id so
  validate_frozen env order.id so.id
  supplier_transition so.id SupplierState.pending (user actor.name)
  resolve_reviews so.id (by_code legacy_supplier_state_unverified ∷ []) (user actor.name)
  audit Event.supplier_legacy_adopted_unsent so.id (user actor.name)
  intervention (InterventionKey.legacy_adopted so.id) (user actor.name) (some order.id)
  pure so.id

-- `supplier.legacy.adopt` is the scope 2, and the supplier order the key, an identifier of 36 characters.
unfoldable pub adopt_verified_unsent_legacy : Env → ℕ → ℕ → Actor → M ℕ
adopt_verified_unsent_legacy env so_id reference actor = do
  lift (require actor admin)
  lock_treasury
  execute_command env 2 so_id 36 (confirmation_document reference) (adopt_legacy env so_id actor)
