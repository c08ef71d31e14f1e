-- ===== src/Effects/Receipts.antt =====
-- The receipts of what operators confirm.
use saup.Domain.OperatorCommands.{Evidence}
use saup.Domain.SupplierState.{Actor}
use saup.Store.Db.{Db, Env}
use saup.Store.Keys.{ReceiptKind, Target, Namespace, Document}
use saup.Store.Monad.{M}
use saup.Store.Monad.Keeps.{Keeps}
use saup.Application.Operations.{unused_evidence, insert_receipt, new_receipt, receipt}
use saup.Effects.{Effects, effect_rules}
use saup.Effects.Suppliers.{intervention-keeps}

module _ {P : Db → Type 0} ⦃effects : Effects P⦄ where
  pub unused_evidence-keeps :
      (namespace : Namespace) (e : Evidence) → Keeps P (unused_evidence namespace e)
  unfolding unused_evidence
  unused_evidence-keeps namespace e = search effect_rules depth 12

  insert_receipt-keeps :
      (env : Env) (kind : ReceiptKind) (target : Target) (namespace : Namespace) (e : Evidence)
      (payload : Document) (actor : Actor)
      → Keeps P (insert_receipt env kind target namespace e payload actor)
  unfolding insert_receipt
  insert_receipt-keeps env kind target namespace e payload actor = search effect_rules depth 12

  new_receipt-keeps :
      (env : Env) (kind : ReceiptKind) (target : Target) (namespace : Namespace) (e : Evidence)
      (payload : Document) (actor : Actor) (effect : M (Unit {0}))
      → Keeps P effect
      → Keeps P (new_receipt env kind target namespace e payload actor effect)
  unfolding new_receipt
  new_receipt-keeps env kind target namespace e payload actor effect kept =
      search (effect_rules, unused_evidence-keeps, insert_receipt-keeps, intervention-keeps) depth
        16

  pub receipt-keeps :
      (env : Env) (kind : ReceiptKind) (target : Target) (namespace : Namespace) (e : Evidence)
      (payload : Document) (actor : Actor) (effect : M (Unit {0}))
      → Keeps P effect
      → Keeps P (receipt env kind target namespace e payload actor effect)
  unfolding receipt
  receipt-keeps env kind target namespace e payload actor effect kept =
      search (effect_rules, new_receipt-keeps) depth 16
