-- ===== src/Effects/Batches.antt =====
-- The batches of a supplier.
use saup.Base.{ℕ, List}
use saup.Domain.SupplierState.{Actor}
use saup.Domain.SupplierCommands.{BatchCreate, MarkSent}
use saup.Store.Db.{Db, Env}
use saup.Store.CaseRows.{Batch, BatchItem, FileRow}
use saup.Store.Monad.Keeps.{Keeps}
use saup.Effects.{Effects, effect_rules, lock_treasury-keeps}
use saup.Effects.Suppliers.{
  supplier_transition-keeps, intervention-keeps, intent-keeps, validate_frozen-keeps,
}
use saup.Effects.Cancels.{present_order-keeps}
use saup.Effects.{execute_command-keeps}
use saup.Application.SupplierOperations.Batches.{
  insert_item, present_line, present_batch, check_profile, batch_line, export_orders, add_line,
  add_batch, new_batch, create_batch,
}
use saup.Application.SupplierOperations.Sending.{
  export_line, first_export, export_batch, send_line, send_batch, mark_sent, check_finished,
  resolve_batch,
}

module _ {P : Db → Type 0} ⦃effects : Effects P⦄ where
  pub present_line-keeps : (i : ℕ) → Keeps P (present_line i)
  unfolding present_line
  present_line-keeps i = search (effect_rules) depth 24

  pub present_batch-keeps : (i : ℕ) → Keeps P (present_batch i)
  unfolding present_batch
  present_batch-keeps i = search (effect_rules) depth 24

  pub check_profile-keeps : (v : BatchCreate) → Keeps P (check_profile v)
  unfolding check_profile
  check_profile-keeps v = search (effect_rules) depth 24

  pub batch_line-keeps : (env : Env) (i : ℕ) (i_2 : ℕ) → Keeps P (batch_line env i i_2)
  unfolding batch_line
  batch_line-keeps env i i_2 =
      search
        (effect_rules, intent-keeps, validate_frozen-keeps, present_order-keeps, present_line-keeps)
        depth 24

  pub export_orders-keeps : (env : Env) (i : ℕ) (v : List FileRow) → Keeps P (export_orders env i v)
  unfolding export_orders
  export_orders-keeps env i v = search (effect_rules) depth 24

  pub export_line-keeps : (i : ℕ) (a : Actor) (item : BatchItem) → Keeps P (export_line i a item)
  unfolding export_line
  export_line-keeps i a item =
      search
        (
          effect_rules, supplier_transition-keeps, intervention-keeps, present_order-keeps,
          present_line-keeps,
        )
        depth 24

  pub first_export-keeps : (env : Env) (b : Batch) (a : Actor) → Keeps P (first_export env b a)
  unfolding first_export
  first_export-keeps env b a = search (effect_rules, export_line-keeps) depth 24

  pub export_batch-keeps : (env : Env) (i : ℕ) (a : Actor) → Keeps P (export_batch env i a)
  unfolding export_batch
  export_batch-keeps env i a =
      search (effect_rules, lock_treasury-keeps, present_batch-keeps, first_export-keeps) depth 24

  pub send_line-keeps : (i : ℕ) (a : Actor) (item : BatchItem) → Keeps P (send_line i a item)
  unfolding send_line
  send_line-keeps i a item =
      search
        (
          effect_rules, supplier_transition-keeps, intervention-keeps, present_order-keeps,
          present_line-keeps,
        )
        depth 24

  pub send_batch-keeps :
      (env : Env) (b : Batch) (v : MarkSent) (a : Actor) → Keeps P (send_batch env b v a)
  unfolding send_batch
  send_batch-keeps env b v a = search (effect_rules, send_line-keeps) depth 24

  pub mark_sent-keeps :
      (env : Env) (i : ℕ) (v : MarkSent) (a : Actor) → Keeps P (mark_sent env i v a)
  unfolding mark_sent
  mark_sent-keeps env i v a =
      search (effect_rules, lock_treasury-keeps, present_batch-keeps, send_batch-keeps) depth 24

  pub check_finished-keeps : (item : BatchItem) → Keeps P (check_finished item)
  unfolding check_finished
  check_finished-keeps item =
      search (effect_rules, present_order-keeps, present_line-keeps) depth 24

  pub resolve_batch-keeps : (i : ℕ) (a : Actor) → Keeps P (resolve_batch i a)
  unfolding resolve_batch
  resolve_batch-keeps i a =
      search (effect_rules, lock_treasury-keeps, present_batch-keeps, check_finished-keeps) depth 24

module _ {P : Db → Type 0} ⦃effects : Effects P⦄
    (kept : (env : Env) (v : BatchCreate) (a : Actor) → Keeps P (new_batch env v a)) where
  pub create_batch-keeps :
      (env : Env) (v : BatchCreate) (a : Actor) → Keeps P (create_batch env v a)
  unfolding create_batch
  create_batch-keeps env v a =
      search (effect_rules, lock_treasury-keeps, execute_command-keeps, kept) depth 24

-- Where a new line does not matter.
module _ {P : Db → Type 0} ⦃effects : Effects P⦄
    (new_item : (batch_id supplier_id so_id snapshot_hash : ℕ)
      → Keeps P (insert_item batch_id supplier_id so_id snapshot_hash)) where
  add_line-free :
      (env : Env) (i : ℕ) (i_2 : ℕ) (a : Actor) (r : FileRow) → Keeps P (add_line env i i_2 a r)
  unfolding add_line
  add_line-free env i i_2 a r =
      search
        (
          effect_rules, new_item, supplier_transition-keeps, intervention-keeps, intent-keeps,
          present_order-keeps,
        )
        depth 24

  add_batch-free :
      (env : Env) (v : BatchCreate) (a : Actor) (v_2 : List FileRow) (i : ℕ)
      → Keeps P (add_batch env v a v_2 i)
  unfolding add_batch
  add_batch-free env v a v_2 i = search (effect_rules, add_line-free) depth 24

  new_batch-free : (env : Env) (v : BatchCreate) (a : Actor) → Keeps P (new_batch env v a)
  unfolding new_batch
  new_batch-free env v a =
      search
        (effect_rules, check_profile-keeps, batch_line-keeps, export_orders-keeps, add_batch-free)
        depth 24

  pub create_batch-free : (env : Env) (v : BatchCreate) (a : Actor) → Keeps P (create_batch env v a)
  create_batch-free = create_batch-keeps new_batch-free
