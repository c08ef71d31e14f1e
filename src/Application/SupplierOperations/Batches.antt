-- ===== src/Application/SupplierOperations/Batches.antt =====
-- `create_batch` of
-- packages/application/supplier_operations.py, and the checks of `export_orders` of
-- packages/integrations/suppliers/excel.py. The making of the workbook, the hash of a file and the cipher
-- are functions of `Env`.
use saup.Base.{
  ℕ, Bool, true, false, not, ◌&&◌, ◌||◌, ◌==◌, Option, some, none, List, [], ◌∷◌, ◌++◌, map, length,
  filter, find?, repeats, sorted_numbers,
}
use saup.Domain.Errors.{
  conflict, domain, validation, supplier_resource_not_found, duplicate_batch_order, demo_disabled,
  batch_supplier_profile_mismatch, cross_supplier_batch, supplier_order_not_batchable,
  supplier_order_already_batched, invalid_quantity, duplicate_export_order,
}
use saup.Domain.Address
use saup.Domain.OrderState.{OrderState}
use saup.Domain.OrderState
use saup.Domain.SupplierCommands.{
  BatchCreate, batch_create_valid, PaymentPath, manual_evidence, demo_provider,
}
use saup.Domain.SupplierState.{SupplierState, Actor, require, operator, admin}
use saup.Domain.SupplierState
use saup.Store.Db.{Db, Env, AppMode, production}
use saup.Store.Keys.{batch_document}
use saup.Store.Rows.{Event, user, Order}
use saup.Store.CaseRows.{
  Batch, BatchItem, BatchStatus, ack_pending, ExcelProfile, FileRow, InterventionKey,
}
use saup.Store.Monad.{
  M, pure, raise, gets, lift, modify, fresh, on_some, raise_when, for_each, collect, ◌>>=◌, ◌>>◌,
}
use saup.Store.Tables.{find_order, find_supplier, find_batch}
use saup.Application.Common.{audit, execute_command, lock_treasury}
use saup.Application.Commerce.Intake.{is_excel}
use saup.Application.SupplierOperations.Terms.{
  supplier_transition, intervention, active_item, intent, validate_frozen,
}
use saup.Application.SupplierOperations.Cancel.{present_order}
use saup.Application.SupplierOperations.Request.{is_none}

-- `self.get`, for an order and a batch.
unfoldable pub present_line : ℕ → M Order
present_line order_id = do
  row ← gets (find_order order_id)
  on_some row (raise (domain supplier_resource_not_found 404)) (λ o. pure o)

unfoldable pub present_batch : ℕ → M Batch
present_batch batch_id = do
  row ← gets (find_batch batch_id)
  on_some row (raise (domain supplier_resource_not_found 404)) (λ b. pure b)

-- `self.items`: a batch's lines were added in the order of their positions.
abbrev pub items_of : ℕ → Db → List BatchItem
items_of batch_id db = filter (λ (item : BatchItem). item.batch_id == batch_id) db.batch_items

abbrev is_demo : PaymentPath → Bool
is_demo demo_provider = true
is_demo manual_evidence = false

abbrev is_production : AppMode → Bool
is_production production = true
is_production _ = false

-- The profile is the supplier's, who is active and takes files.
unfoldable pub check_profile : BatchCreate → M ExcelProfile
check_profile cmd = do
  found ← gets (find_supplier cmd.supplier_id)
  on_some found (raise (domain supplier_resource_not_found 404)) (λ supplier. do
    row ← gets (λ db. find? (λ (p : ExcelProfile). p.id == cmd.profile_id) db.excel_profiles)
    on_some row (raise (domain supplier_resource_not_found 404)) (λ profile. do
      raise_when
          (not (profile.supplier_id == supplier.id)
            || not (is_excel supplier.mode)
            || not supplier.active)
          (conflict batch_supplier_profile_mismatch)
      pure profile))

-- A line that may enter a batch: uncancelled, waiting, in no other batch, on terms that still hold.
unfoldable pub batch_line : Env → ℕ → ℕ → M (Option FileRow)
batch_line env supplier_id so_id = do
  so ← present_order so_id
  order ← present_line so.order_id
  v ← intent env so.id
  raise_when (not (v.supplier_id == supplier_id)) (conflict cross_supplier_batch)
  raise_when
      (order.cancel_requested
        || not (OrderState.same order.state OrderState.supplier_order_pending)
        || not (SupplierState.same so.status SupplierState.pending))
      (conflict supplier_order_not_batchable)
  current ← gets (active_item so.id)
  raise_when (not (is_none current)) (conflict supplier_order_already_batched)
  validate_frozen env order.id so.id
  pure (
      some (record {
        supplier_order_id = so.id;
        marketplace_order_id = order.external_id;
        supplier_sku = v.snapshot.supplier_sku;
        quantity = v.snapshot.quantity;
        address = env.decrypt order.pii_ciphertext;
      }))

unfoldable pub export_orders : Env → ℕ → List FileRow → M ℕ
export_orders env mapping rows = do
  raise_when (repeats (map (λ (r : FileRow). r.supplier_order_id) rows))
      (domain duplicate_export_order 422)
  for_each rows (λ r. do
    raise_when (not (Address.is_valid env.unicode r.address)) validation
    raise_when (r.quantity == 0) (domain invalid_quantity 422))
  pure (env.workbook mapping rows)

abbrev pub next_position : ℕ → Db → ℕ
next_position batch_id db = length (items_of batch_id db)

-- The table's constraint on active lines is left out here; `create_batch` checks it before.
unfoldable pub insert_item : ℕ → ℕ → ℕ → ℕ → M (Unit {0})
insert_item batch_id supplier_id so_id snapshot_hash = modify (λ db. record db {
  batch_items =
      db.batch_items
      ++ record {
        batch_id = batch_id;
        supplier_order_id = so_id;
        supplier_id = supplier_id;
        position = next_position batch_id db;
        active = true;
        snapshot_hash = snapshot_hash;
        ack_status = ack_pending;
        accepted_amount = none;
        rejection_reason = none;
      }
        ∷ [];
})

-- The line's supplier order moves on, and its item is active from here on.
unfoldable pub add_line : Env → ℕ → ℕ → Actor → FileRow → M (Unit {0})
add_line env batch_id supplier_id actor row = do
  so ← present_order row.supplier_order_id
  supplier_transition so.id SupplierState.batched (user actor.name)
  supplier_transition so.id SupplierState.file_ready (user actor.name)
  v ← intent env so.id
  insert_item batch_id supplier_id so.id v.snapshot_hash
  intervention (InterventionKey.batch_created batch_id so.id) (user actor.name) (some so.order_id)

unfoldable pub add_batch : Env → BatchCreate → Actor → List FileRow → ℕ → M ℕ
add_batch env cmd actor rows file = do
  batch_id ← fresh
  modify (λ db. record db {
    batches =
        record {
          id = batch_id;
          supplier_id = cmd.supplier_id;
          payment_path = cmd.payment_path;
          status = BatchStatus.file_ready;
          order_count = length rows;
          file_hash = env.sha256 file;
          file_ciphertext = env.encrypt_file file;
          exported_at = none;
          exported_by = none;
          sent_at = none;
          sent_by = none;
          send_hash = none;
          acknowledged_at = none;
          acknowledged_by = none;
        }
        ∷ db.batches;
  })
  for_each rows (add_line env batch_id cmd.supplier_id actor)
  audit Event.supplier_batch_created batch_id (user actor.name)
  pure batch_id

-- The command's action: every line is checked before any is written.
unfoldable pub new_batch : Env → BatchCreate → Actor → M ℕ
new_batch env cmd actor = do
  profile ← check_profile cmd
  rows ← collect (sorted_numbers cmd.supplier_order_ids) (batch_line env cmd.supplier_id)
  file ← export_orders env profile.mapping rows
  add_batch env cmd actor rows file

-- `supplier.batch.create` is the scope 1.
unfoldable pub create_batch : Env → BatchCreate → Actor → M ℕ
create_batch env cmd actor = do
  lift (require actor operator)
  raise_when (not (batch_create_valid cmd)) validation
  raise_when (repeats (sorted_numbers cmd.supplier_order_ids)) (domain duplicate_batch_order 422)
  raise_when (is_demo cmd.payment_path && is_production env.app_mode) (domain demo_disabled 403)
  lock_treasury
  execute_command env 1 cmd.idempotency_key cmd.key_length
      (batch_document (record cmd { supplier_order_ids = sorted_numbers cmd.supplier_order_ids }))
      (new_batch env cmd actor)
