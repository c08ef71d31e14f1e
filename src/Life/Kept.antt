-- ===== src/Life/Kept.antt =====
-- The effects lead an order along the graph only.
use saup.Base.{
  ℕ, ◌<◌, ◌≡◌, refl, sym, ◌∙◌, ◌==◌, update, find?, Option, some, arith, Bool-cases, find-update,
  inl, inr, ◌⊎◌, subst, ap,
}
use saup.Domain.Errors.{ok}
use saup.Domain.OrderState.{OrderState, validate_transition}
use saup.Domain.OrderState.Graph.{◌⟶◌, validate_transition_iff}
use saup.Store.Db.{Db, Env}
use saup.Store.Rows.{Order, Payment, Receipt}
use saup.Store.Keys.{Target}
use saup.Store.Monad.{modify, fresh, ◌>>=◌}
use saup.Store.Monad.Keeps.{
  Keeps, Keeps-pure, Keeps-raise, Keeps-gets, Keeps-lift, Keeps-present, Keeps-catch, Keeps-on_some,
  Keeps-if, Keeps-raise_when, Keeps-when, Keeps-bind, Keeps-for_each, Keeps-collect, Outcome-fetch,
  Outcome-lift, Outcome-when, Outcome-bind,
}
use saup.Store.Tables.{find_order, update_order, update_payment, update_lines}
use saup.Application.Commerce.Intake.{OrderInput, insert_order}
use saup.Application.Commerce.Payments.{insert_payment}
use saup.Application.Finance.Ledger.{post, write_journal, apply_entry}
use saup.Application.Finance.Treasury.{settle_payment, pay_out, record_payment}
use saup.Application.Operations.Funds.{move_deposit}
use saup.Application.OrderRules.{transition}
use saup.Application.SupplierOperations.Batches.{insert_item}
use saup.Effects.{Watched, Quiet, Effects, Sends}
use saup.Effects.Batches.{create_batch-free}
use saup.Effects.Dispatching.{free_sends}
use saup.Life.{◌⟶*◌, on, Run, has_id, find-update_other}

extend : {s t u : OrderState} → s ⟶* t → (t ≡ u) ⊎ (t ⟶ u) → s ⟶* u
extend {s = s} path (inl kept) = subst (λ w. s ⟶* w) kept path
extend path (inr edge) = on path edge

module _ {n : ℕ} {s : OrderState} where
  run_elsewhere :
      (f : Db → Db)
      → ((db : Db) → (f db).next_id ≡ db.next_id)
      → ((db : Db) → (f db).orders ≡ db.orders)
      → Keeps (Run n s) (modify f)
  unfolding modify
  run_elsewhere f same kept = record {
    at = λ db h. record {
      old = subst (λ i. n < i) (sym (same db)) h.old;
      order = h.order;
      found = subst (λ orders. find? (has_id n) orders ≡ some h.order) (sym (kept db)) h.found;
      path = h.path;
    };
  }

  run_fresh : Keeps (Run n s) fresh
  unfolding fresh
  run_fresh = record {
    at = λ db h. record {
      old = grind (arith, h.old);
      order = h.order;
      found = h.found;
      path = h.path;
    };
  }

ruleset run_rules = (
  Keeps-pure, Keeps-raise, Keeps-gets, Keeps-lift, Keeps-present, Keeps-catch, Keeps-on_some,
  Keeps-if, Keeps-raise_when, Keeps-when, Keeps-bind, Keeps-for_each, Keeps-collect, run_elsewhere,
  run_fresh, refl,
)

module _ {n : ℕ} {s : OrderState} where
  run_quiet : Quiet (Run n s)
  run_quiet = record {
    elsewhere = λ f same.
        run_elsewhere f (λ db. ap (λ (w : Watched). w.next_id) (same db))
          (λ db. ap (λ (w : Watched). w.orders) (same db));
    new_id = run_fresh;
  }

  -- A write to a row, which leads the order on if it is the order's.
  written :
      (i : ℕ) (g : Order → Order) (db : Db)
      → ((r : Order) → (g r).id ≡ r.id)
      → ((r : Order) → find_order i db ≡ some r → (r.state ≡ (g r).state) ⊎ (r.state ⟶ (g r).state))
      → Run n s db
      → Run n s (record db { orders = update (has_id i) g db.orders })
  written i g db same leads h = elim (Bool-cases (i == n)) [
    | inl e ↦
        let i≡n : i ≡ n = grind arith in
        record {
          old = h.old;
          order = g h.order;
          found =
              rw i≡n (
                find-update (has_id n) g db.orders h.order (λ r. ap (λ k. k == n) (same r))
                  h.found);
          path = extend h.path (leads h.order (rw i≡n h.found));
        }
    | inr e ↦ record {
      old = h.old;
      order = h.order;
      found = find-update_other n i g db.orders same e ∙ h.found;
      path = h.path;
    }
  ]

  move-Run : (i : ℕ) (target : OrderState) → Keeps (Run n s) (transition i target)
  unfolding transition modify
  move-Run i target = record {
    at = λ db h. Outcome-fetch (Run n s) (find_order i) _ db (λ o found.
        Outcome-lift (Run n s) (validate_transition o.state target) _ db (λ _ accepted.
          Outcome-when (Run n s) _ _ db h (
            Outcome-bind (Run n s) _ _ db (moved i target o db found accepted h)
              (λ _. search run_rules depth 8))));
  }
    where
      same_row : {a b : Order} {found : Option Order} → found ≡ some a → found ≡ some b → a ≡ b
      same_row p q = ground (arith, p, q)

      moved :
          (i : ℕ) (target : OrderState) (o : Order) (db : Db)
          → find_order i db ≡ some o
          → validate_transition o.state target ≡ ok tt
          → Run n s db
          → Run n s (record db {
            orders = update (has_id i) (λ r. record r { state = target }) db.orders;
          })
      moved i target o db found accepted h =
          written i (λ r. record r { state = target }) db (λ r. refl)
            (λ r again.
              rw (same_row again found) ((validate_transition_iff o.state target).0 accepted))
            h

  insert_order-Run : (env : Env) (input : OrderInput) → Keeps (Run n s) (insert_order env input)
  unfolding insert_order fresh modify ◌>>=◌
  insert_order-Run env input = record {
    at = λ db h. record {
      old = grind (arith, h.old);
      order = h.order;
      found = ground (arith, h.old, h.found);
      path = h.path;
    };
  }

  post-Run :
      (env : _) (key : _) (kind : _) (entries : _) (o : _)
      → Keeps (Run n s) (post env key kind entries o)
  unfolding post write_journal apply_entry
  post-Run env key kind entries o = search run_rules depth 24

  free : (i : ℕ) (g : Payment → Payment) → Keeps (Run n s) (update_payment i g)
  free i g = search run_rules

  settle_payment-Run :
      (env : Env) (p : Payment) (receipt : Receipt) → Keeps (Run n s) (settle_payment env p receipt)
  unfolding settle_payment pay_out record_payment
  settle_payment-Run env p receipt = search (run_rules, post-Run) depth 30

  touch-Run :
      (i : ℕ) (g : Order → Order)
      → ((o : Order) → (g o).id ≡ o.id)
      → ((o : Order) → (g o).state ≡ o.state)
      → Keeps (Run n s) (update_order i g)
  unfolding modify
  touch-Run i g same kept = record {
    at = λ db h. written i g db same (λ r _. inl (sym (kept r))) h;
  }

  move_deposit-Run :
      (env : Env) (supplier_id : ℕ) (target : Target) (amount : ℕ)
      → Keeps (Run n s) (move_deposit env supplier_id target amount)
  unfolding move_deposit
  move_deposit-Run env supplier_id target amount = search (run_rules, post-Run) depth 16

  instance pub run_effects : Effects (Run n s)
  unfolding insert_payment update_lines
  run_effects = record {
    quiet = run_quiet;
    new_order = insert_order-Run;
    move = move-Run;
    touch = touch-Run;
    new_payment = λ order_id so_id amount destination status. search run_rules depth 16;
    end_payment = λ i g same stays. free i g;
    touch_lines = λ test g same stays. search run_rules;
    gain = λ env key kind entries o gains. post-Run env key kind entries o;
    settle = settle_payment-Run;
    fund = move_deposit-Run;
  }

  pub run_sends : Sends (Run n s)
  unfolding insert_item
  run_sends =
      free_sends free
        (create_batch-free (λ batch_id supplier_id so_id snapshot_hash. search run_rules depth 16))
