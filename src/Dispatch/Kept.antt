-- ===== src/Dispatch/Kept.antt =====
-- The effects leave a payment that is gone as it is.
use saup.Base.{ℕ, ◌<◌, ◌≡◌, true, sym, subst, arith}
use saup.Store.Db.{Env}
use saup.Store.Rows.{Payment, Receipt}
use saup.Store.Keys.{Target}
use saup.Store.Monad.{modify, fresh}
use saup.Store.Monad.Keeps.{Keeps}
use saup.Store.Tables.{update_lines}
use saup.Application.Commerce.Intake.{insert_order}
use saup.Application.Commerce.Payments.{insert_payment}
use saup.Application.Finance.Ledger.{post, write_journal, apply_entry}
use saup.Application.Finance.Treasury.{settle_payment, pay_out, record_payment}
use saup.Application.Operations.Funds.{move_deposit}
use saup.Application.OrderRules.{transition}
use saup.Dispatch.{Gone, gone_in, Gone-update, gone_rules}
use saup.Effects.{Watched, Quiet, Effects}

module _ {n : ℕ} where
  gone_quiet : Quiet (Gone n)
  unfolding modify fresh
  gone_quiet = record {
    elsewhere = λ f same. record {
      at = λ db h. record {
        old = subst (λ (w : Watched). n < w.next_id) (sym (same db)) h.old;
        gone = subst (λ (w : Watched). gone_in n w.payments ≡ true) (sym (same db)) h.gone;
      };
    };
    new_id = record { at = λ db h. record { old = grind (arith, h.old); gone = h.gone } };
  }

  post-Gone :
      (env : _) (key : _) (kind : _) (entries : _) (o : _)
      → Keeps (Gone n) (post env key kind entries o)
  unfolding post write_journal apply_entry
  post-Gone env key kind entries o = search gone_rules depth 24

  settle_payment-Gone :
      (env : Env) (p : Payment) (receipt : Receipt) → Keeps (Gone n) (settle_payment env p receipt)
  unfolding settle_payment pay_out record_payment
  settle_payment-Gone env p receipt = search (gone_rules, post-Gone) depth 30

  transition-Gone : (i : ℕ) (target : _) → Keeps (Gone n) (transition i target)
  unfolding transition
  transition-Gone i target = search gone_rules depth 16

  move_deposit-Gone :
      (env : Env) (supplier_id : ℕ) (target : Target) (amount : ℕ)
      → Keeps (Gone n) (move_deposit env supplier_id target amount)
  unfolding move_deposit
  move_deposit-Gone env supplier_id target amount = search (gone_rules, post-Gone) depth 16

  instance pub gone_effects : Effects (Gone n)
  unfolding insert_order insert_payment update_lines
  gone_effects = record {
    quiet = gone_quiet;
    new_order = λ env input. search gone_rules depth 16;
    move = transition-Gone;
    touch = λ i g same kept. search gone_rules;
    new_payment = λ order_id so_id amount destination status. search gone_rules depth 16;
    end_payment = λ i g same stays. Gone-update i g same stays;
    touch_lines = λ test g same stays. search gone_rules;
    gain = λ env key kind entries o gains. post-Gone env key kind entries o;
    settle = settle_payment-Gone;
    fund = move_deposit-Gone;
  }
