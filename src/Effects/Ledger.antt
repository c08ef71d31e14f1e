-- ===== src/Effects/Ledger.antt =====
-- The invariants of the ledger are kept by all effects.
use saup.Base.{ℕ, Option, List, sym, subst}
use saup.Store.Db.{Env}
use saup.Store.Keys.{JournalKey, JournalKind, Target}
use saup.Store.Rows.{Account, Posting, Journal, Payment, Receipt}
use saup.Store.Monad.{modify, fresh}
use saup.Store.Monad.Keeps.{Keeps}
use saup.Store.Tables.{update_payment, update_lines}
use saup.Application.Books.Gains.{Gains}
use saup.Application.Commerce.Intake.{insert_order}
use saup.Application.Commerce.Payments.{insert_payment}
use saup.Application.Finance.Ledger.{Entries, post}
use saup.Application.Finance.Ledger.Once.{HasDistinctKeys, post-HasDistinctKeys}
use saup.Application.Finance.Ledger.Post.{IsBalanced, IsSolvent, post-IsBalanced, post-IsSolvent}
use saup.Application.Finance.Settle.{
  settle_payment-IsBalanced, settle_payment-IsSolvent, settle_payment-HasDistinctKeys,
}
use saup.Application.Finance.Treasury.{settle_payment}
use saup.Application.Frame.{OnLedger, frame_rules, transition-frame}
use saup.Application.SupplierOperations.Batches.{insert_item}
use saup.Application.Operations.Funds.{move_deposit}
use saup.Application.Operations.Funds.Kept.{
  move_deposit-IsBalanced, move_deposit-IsSolvent, move_deposit-HasDistinctKeys,
}
use saup.Effects.{Watched, Quiet, Effects, Sends}
use saup.Effects.Batches.{create_batch-free}
use saup.Effects.Dispatching.{free_sends}

module _ {P : List Account → List Posting → List Journal → Type 0} where
  ledger_quiet : Quiet (OnLedger P)
  unfolding fresh modify
  ledger_quiet = record {
    elsewhere = λ f same. record {
      at = λ db h. record {
        ledger =
            subst (λ (w : Watched). P w.accounts w.postings w.journals) (sym (same db)) h.ledger;
      };
    };
    new_id = search frame_rules;
  }

  -- Every payment may be written.
  free : (i : ℕ) (g : Payment → Payment) → Keeps (OnLedger P) (update_payment i g)
  free i g = search frame_rules

  ledger_effects :
      ((env : Env) (key : JournalKey) (kind : JournalKind) (entries : Entries) (o : Option ℕ)
        → Gains entries
        → Keeps (OnLedger P) (post env key kind entries o))
      → ((env : Env) (p : Payment) (receipt : Receipt)
          → Keeps (OnLedger P) (settle_payment env p receipt))
      → ((env : Env) (supplier_id : ℕ) (target : Target) (amount : ℕ)
          → Keeps (OnLedger P) (move_deposit env supplier_id target amount))
      → Effects (OnLedger P)
  unfolding insert_order insert_payment update_lines
  ledger_effects gain settle fund = record {
    quiet = ledger_quiet;
    new_order = λ env input. search frame_rules depth 12;
    move = transition-frame;
    touch = λ i g same kept. search frame_rules;
    new_payment = λ order_id so_id amount destination status. search frame_rules depth 12;
    end_payment = λ i g same stays. free i g;
    touch_lines = λ test g same stays. search frame_rules;
    gain = gain;
    settle = settle;
    fund = fund;
  }

new_item :
    {P : List Account → List Posting → List Journal → Type 0}
    (batch_id supplier_id so_id snapshot_hash : ℕ)
    → Keeps (OnLedger P) (insert_item batch_id supplier_id so_id snapshot_hash)
unfolding insert_item
new_item batch_id supplier_id so_id snapshot_hash = search frame_rules depth 12

instance pub balanced_effects : Effects IsBalanced
balanced_effects =
    ledger_effects (λ env key kind entries o gains. post-IsBalanced env key kind entries o)
      settle_payment-IsBalanced move_deposit-IsBalanced

instance pub solvent_effects : Effects IsSolvent
solvent_effects = ledger_effects post-IsSolvent settle_payment-IsSolvent move_deposit-IsSolvent

instance pub distinct_effects : Effects HasDistinctKeys
distinct_effects =
    ledger_effects (λ env key kind entries o gains. post-HasDistinctKeys env key kind entries o)
      settle_payment-HasDistinctKeys move_deposit-HasDistinctKeys

pub balanced_sends : Sends IsBalanced
balanced_sends = free_sends free (create_batch-free new_item)

pub solvent_sends : Sends IsSolvent
solvent_sends = free_sends free (create_batch-free new_item)

pub distinct_sends : Sends HasDistinctKeys
distinct_sends = free_sends free (create_batch-free new_item)
