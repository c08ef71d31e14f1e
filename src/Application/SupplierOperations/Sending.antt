-- ===== src/Application/SupplierOperations/Sending.antt =====
-- `export_batch`, `mark_sent` and `resolve_batch` of packages/application/supplier_operations.py.
pub mod Repeats
use saup.Base.{ℕ, Bool, true, false, not, ◌&&◌, ◌||◌, ◌==◌, some, any, if◌then◌else◌}
use saup.Domain.Errors.{
  conflict, cancel_requested, batch_file_invalidated, batch_file_integrity_error,
  supplier_send_conflict, batch_not_sendable, batch_unresolved_business_issue,
  batch_has_open_reviews,
}
use saup.Domain.OrderState.{OrderState}
use saup.Domain.OrderState
use saup.Domain.SupplierCommands.{MarkSent}
use saup.Domain.SupplierState.{SupplierState, Actor, require, operator, admin}
use saup.Domain.SupplierState
use saup.Store.Db.{Db, Env}
use saup.Store.Keys.{sending_document}
use saup.Store.Rows.{Event, Review, user}
use saup.Store.CaseRows.{Batch, BatchItem, BatchStatus, InterventionKey}
use saup.Store.Monad.{M, pure, gets, lift, on_some, when, raise_when, for_each, ◌>>=◌, ◌>>◌}
use saup.Store.Tables.{update_batch}
use saup.Application.Common.{audit, is_resolved, lock_treasury}
use saup.Application.SupplierOperations.Terms.{supplier_transition, intervention}
use saup.Application.SupplierOperations.Cancel.{present_order}
use saup.Application.SupplierOperations.Request.{is_none}
use saup.Application.SupplierOperations.Batches.{present_line, present_batch, items_of}

abbrev is_void : BatchStatus → Bool
is_void BatchStatus.invalidated = true
is_void BatchStatus.cancelled = true
is_void BatchStatus.cancel_pending = true
is_void _ = false

abbrev is_file_ready : BatchStatus → Bool
is_file_ready BatchStatus.file_ready = true
is_file_ready _ = false

unfoldable pub export_line : ℕ → Actor → BatchItem → M (Unit {0})
export_line batch_id actor item = do
  so ← present_order item.supplier_order_id
  when (SupplierState.same so.status SupplierState.file_ready)
      (supplier_transition so.id SupplierState.exported (user actor.name))
  order ← present_line so.order_id
  intervention (InterventionKey.file_exported batch_id so.id) (user actor.name) (some order.id)

-- What the first download of a batch's file changes.
unfoldable pub first_export : Env → Batch → Actor → M (Unit {0})
first_export env batch actor = do
  update_batch batch.id (λ b. record b {
    exported_at = some env.now;
    exported_by = some (user actor.name);
    status = if is_file_ready b.status then BatchStatus.exported else b.status;
  })
  items ← gets (items_of batch.id)
  for_each items (export_line batch.id actor)

-- Every download is in the trail. The file's bytes are the result.
unfoldable pub export_batch : Env → ℕ → Actor → M ℕ
export_batch env batch_id actor = do
  lift (require actor operator)
  lock_treasury
  batch ← present_batch batch_id
  raise_when (is_void batch.status) (conflict batch_file_invalidated)
  let file = env.decrypt_file batch.file_ciphertext
  raise_when (not (env.sha256 file == batch.file_hash)) (conflict batch_file_integrity_error)
  when (is_none batch.exported_at) (first_export env batch actor)
  audit Event.supplier_batch_file_exported batch.id (user actor.name)
  pure file

abbrev pub is_sendable : BatchStatus → Bool
is_sendable BatchStatus.file_ready = true
is_sendable BatchStatus.exported = true
is_sendable _ = false

unfoldable pub send_line : ℕ → Actor → BatchItem → M (Unit {0})
send_line batch_id actor item = do
  so ← present_order item.supplier_order_id
  order ← present_line so.order_id
  raise_when order.cancel_requested (conflict cancel_requested)
  supplier_transition so.id SupplierState.sent (user actor.name)
  intervention (InterventionKey.file_sent batch_id so.id) (user actor.name) (some order.id)

unfoldable pub send_batch : Env → Batch → MarkSent → Actor → M (Unit {0})
send_batch env batch cmd actor = do
  raise_when (not (is_sendable batch.status) || not (cmd.file_hash == batch.file_hash))
      (conflict batch_not_sendable)
  update_batch batch.id (λ b. record b {
    sent_at = some env.now;
    sent_by = some (user actor.name);
    send_hash = some (env.fingerprint (sending_document cmd));
    status = BatchStatus.sent;
  })
  items ← gets (items_of batch.id)
  for_each items (send_line batch.id actor)
  audit Event.supplier_batch_sent batch.id (user actor.name)

-- A repeated report changes nothing, and a different one is refused.
unfoldable pub mark_sent : Env → ℕ → MarkSent → Actor → M (Unit {0})
mark_sent env batch_id cmd actor = do
  lift (require actor operator)
  lock_treasury
  batch ← present_batch batch_id
  on_some batch.send_hash (send_batch env batch cmd actor) (λ h.
      raise_when (not (h == env.fingerprint (sending_document cmd)))
        (conflict supplier_send_conflict))

abbrev is_finished : SupplierState → Bool
is_finished SupplierState.shipped = true
is_finished SupplierState.cancelled = true
is_finished _ = false

abbrev has_open_review : ℕ → ℕ → Db → Bool
has_open_review so_id order_id db =
    any
      (λ (r : Review).
        (r.entity_id == so_id || r.entity_id == order_id) && not (is_resolved r.status))
      db.reviews

unfoldable pub check_finished : BatchItem → M (Unit {0})
check_finished item = do
  so ← present_order item.supplier_order_id
  order ← present_line so.order_id
  raise_when
      (not (is_finished so.status) || OrderState.same order.state OrderState.cancel_requested)
      (conflict batch_unresolved_business_issue)
  blocked ← gets (has_open_review so.id order.id)
  raise_when blocked (conflict batch_has_open_reviews)

abbrev is_closed : BatchStatus → Bool
is_closed BatchStatus.batch_resolved = true
is_closed _ = false

unfoldable pub resolve_batch : ℕ → Actor → M (Unit {0})
resolve_batch batch_id actor = do
  lift (require actor admin)
  lock_treasury
  batch ← present_batch batch_id
  when (not (is_closed batch.status)) (do
    items ← gets (items_of batch.id)
    for_each items check_finished
    update_batch batch.id (λ b. record b { status = BatchStatus.batch_resolved })
    audit Event.supplier_batch_resolved batch.id (user actor.name))
