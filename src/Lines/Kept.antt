-- ===== src/Lines/Kept.antt =====
-- What the effects keep of the active lines, other than a new batch.
use saup.Base.{ℕ, ◌≤◌, ◌≡◌, refl, sym, ap, subst, Bool, true, arith}
use saup.Store.Db.{Db, Env}
use saup.Store.Rows.{Payment, Receipt}
use saup.Store.CaseRows.{BatchItem}
use saup.Store.Keys.{Target}
use saup.Store.Monad.{modify, fresh}
use saup.Store.Monad.Keeps.{
  Keeps, Keeps-pure, Keeps-raise, Keeps-gets, Keeps-lift, Keeps-present, Keeps-catch, Keeps-on_some,
  Keeps-if, Keeps-raise_when, Keeps-when, Keeps-bind, Keeps-for_each, Keeps-collect,
}
use saup.Store.Tables.{update_payment, update_lines}
use saup.Application.Commerce.Intake.{insert_order}
use saup.Application.Commerce.Payments.{insert_payment}
use saup.Application.Finance.Ledger.{post, write_journal, apply_entry}
use saup.Application.Finance.Treasury.{settle_payment, pay_out, record_payment}
use saup.Application.Operations.Funds.{move_deposit}
use saup.Application.OrderRules.{transition}
use saup.Effects.{Watched, Quiet, Effects}
use saup.Lines.{active_lines, Waiting, map_lines}

module _ {S : ℕ → Bool} where
  lines_elsewhere :
      (f : Db → Db)
      → ((db : Db) → (f db).batch_items ≡ db.batch_items)
      → Keeps (Waiting S) (modify f)
  unfolding modify
  lines_elsewhere f kept = record {
    at = λ db h. record {
      one = record {
        at_most = λ i. subst (λ items. active_lines i items ≤ 1) (sym (kept db)) (h.one.at_most i);
      };
      free = λ i w. subst (λ items. active_lines i items ≡ 0) (sym (kept db)) (h.free i w);
    };
  }

  lines_fresh : Keeps (Waiting S) fresh
  unfolding fresh
  lines_fresh = record {
    at = λ db h. record { one = record { at_most = h.one.at_most }; free = h.free };
  }

ruleset lines_rules = (
  Keeps-pure, Keeps-raise, Keeps-gets, Keeps-lift, Keeps-present, Keeps-catch, Keeps-on_some,
  Keeps-if, Keeps-raise_when, Keeps-when, Keeps-bind, Keeps-for_each, Keeps-collect,
  lines_elsewhere, lines_fresh, refl,
)

module _ {S : ℕ → Bool} where
  lines_quiet : Quiet (Waiting S)
  lines_quiet = record {
    elsewhere = λ f same. lines_elsewhere f (λ db. ap (λ (w : Watched). w.batch_items) (same db));
    new_id = lines_fresh;
  }

  post-Waiting :
      (env : _) (key : _) (kind : _) (entries : _) (o : _)
      → Keeps (Waiting S) (post env key kind entries o)
  unfolding post write_journal apply_entry
  post-Waiting env key kind entries o = search lines_rules depth 24

  pub free_payment : (i : ℕ) (g : Payment → Payment) → Keeps (Waiting S) (update_payment i g)
  free_payment i g = search lines_rules

  settle_payment-Waiting :
      (env : Env) (p : Payment) (receipt : Receipt)
      → Keeps (Waiting S) (settle_payment env p receipt)
  unfolding settle_payment pay_out record_payment
  settle_payment-Waiting env p receipt = search (lines_rules, post-Waiting) depth 30

  transition-Waiting : (i : ℕ) (target : _) → Keeps (Waiting S) (transition i target)
  unfolding transition
  transition-Waiting i target = search lines_rules depth 16

  touch_lines-Waiting :
      (test : BatchItem → Bool) (g : BatchItem → BatchItem)
      → ((r : BatchItem) → (g r).supplier_order_id ≡ r.supplier_order_id)
      → ((r : BatchItem) → (g r).active ≡ true → r.active ≡ true)
      → Keeps (Waiting S) (update_lines test g)
  unfolding update_lines modify
  touch_lines-Waiting test g same stays = record {
    at = λ db h. record {
      one = record {
        at_most =
            λ i. ground (arith, map_lines i test g db.batch_items same stays, h.one.at_most i);
      };
      free = λ i w. ground (arith, map_lines i test g db.batch_items same stays, h.free i w);
    };
  }

  move_deposit-Waiting :
      (env : Env) (supplier_id : ℕ) (target : Target) (amount : ℕ)
      → Keeps (Waiting S) (move_deposit env supplier_id target amount)
  unfolding move_deposit
  move_deposit-Waiting env supplier_id target amount = search (lines_rules, post-Waiting) depth 16

  instance pub lines_effects : Effects (Waiting S)
  unfolding insert_order insert_payment
  lines_effects = record {
    quiet = lines_quiet;
    new_order = λ env input. search lines_rules depth 16;
    move = transition-Waiting;
    touch = λ i g same kept. search lines_rules;
    new_payment = λ order_id so_id amount destination status. search lines_rules depth 16;
    end_payment = λ i g same stays. free_payment i g;
    touch_lines = touch_lines-Waiting;
    gain = λ env key kind entries o gains. post-Waiting env key kind entries o;
    settle = settle_payment-Waiting;
    fund = move_deposit-Waiting;
  }
