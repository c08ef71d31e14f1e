-- ===== src/Lines/Batches.antt =====
-- `create_batch` of packages/application/supplier_operations.py and the active lines: the checks, and the
-- lines that are added after them.
use saup.Base.{
  ℕ, ◌≡◌, refl, subst, Bool, true, false, not, ◌||◌, ◌==◌, has, repeats, map, List, [], ◌∷◌, arith,
  Bool-cases, inl, inr, Option, some, none,
}
use saup.Domain.Errors.{Result, ok, err}
use saup.Domain.SupplierState.{Actor}
use saup.Domain.SupplierCommands.{BatchCreate}
use saup.Store.Db.{Db, Env}
use saup.Store.CaseRows.{FileRow}
use saup.Store.Monad.{collect}
use saup.Store.Monad.Keeps.{
  Keeps, Keeps-raise_when, Keeps-bind, Keeps-for_each, Outcome, Keeps-pure,
}
use saup.Store.Monad.Ensures.{
  Post, Ensures, Ensures-bind, Ensures-pure, Post-then, Post-keeps, Post-passed,
}
use saup.Application.SupplierOperations.Batches.{
  batch_line, export_orders, add_batch, new_batch, create_batch,
}
use saup.Application.SupplierOperations.Terms.{active_item}
use saup.Application.SupplierOperations.Request.{is_none}
use saup.Effects.{effects_quiet, Keeps-new_id, Keeps-elsewhere, Sends}
use saup.Effects.Suppliers.{intent-keeps, validate_frozen-keeps}
use saup.Effects.Cancels.{present_order-keeps}
use saup.Effects.Batches.{present_line-keeps, check_profile-keeps, create_batch-keeps}
use saup.Effects.Dispatching.{free_sends}
use saup.Lines.{active_lines, Waiting, nobody, fewer, no_lines}
use saup.Lines.Kept.{lines_effects, free_payment}
use saup.Lines.Added.{Post-gets, order_of, add_lines-Waiting}

-- The supplier orders of the lines that a check let through.
abbrev let_through : Option FileRow → ℕ → Bool
let_through none k = false
let_through (some r) k = r.supplier_order_id == k

abbrev also : (ℕ → Bool) → (ℕ → Bool) → ℕ → Bool
also T S k = T k || S k

absent_item :
    (so_id : ℕ) (S : ℕ → Bool) (db : Db)
    → not (is_none (active_item so_id db)) ≡ false
    → Waiting S db
    → Waiting (also (λ k. so_id == k) S) db
absent_item so_id S db absent h = record {
  one = h.one;
  free = λ k w. elim (Bool-cases (so_id == k)) [
    | inl same ↦
        (let here : so_id ≡ k = ground (arith, same) in
          subst (λ i. active_lines i db.batch_items ≡ 0) here
            (no_lines so_id db.batch_items (ground (arith, absent))))
    | inr differs ↦ h.free k (ground (arith, differs, w))
  ];
}

module _ (env : Env) (supplier_id : ℕ) where
  batch_line-Waiting :
      (S : ℕ → Bool) (so_id : ℕ)
      → Ensures
          (Waiting S)
          (λ r. Waiting (also (let_through r) S))
          (batch_line env supplier_id so_id)
  unfolding batch_line
  batch_line-Waiting S so_id = Ensures-bind _ _ (present_order-keeps _) λ so.
      Ensures-bind _ _ (present_line-keeps _) λ order. Ensures-bind _ _ (intent-keeps _ _) λ v.
        Ensures-bind _ _ (Keeps-raise_when _ _) λ _. Ensures-bind _ _ (Keeps-raise_when _ _) λ _.
          record {
            at = λ db h. Post-gets _ (active_item so.id) _ db (
                Post-passed _ _ _ _ db λ absent.
                  Post-then (λ _. Waiting (also (λ k. so.id == k) S)) _ _ _ db
                    (Post-keeps _ _ db (absent_item so.id S db absent h)
                      (validate_frozen-keeps _ _ _))
                    (λ _ mid w. (Ensures-pure _ (λ last x. x)).at mid w));
          }

  checked :
      (S : ℕ → Bool) (found : Option FileRow) (r : Result (List FileRow × Db))
      → Post
          (λ rows. Waiting (also (λ k. has k (map order_of rows)) (also (let_through found) S)))
          r
      → Post
          (λ rows. Waiting (also (λ k. has k (map order_of rows)) S))
          (elim r as (λ _. Result (List FileRow × Db)) [
            | ok (others, last) ↦ ok (elim found [ none ↦ others | some a ↦ a ∷ others ], last)
            | err e ↦ err e
          ])
  checked S none (ok (others, last)) h = fewer _ _ last (λ k w. ground (arith, w)) h
  checked S (some a) (ok (others, last)) h = fewer _ _ last (λ k w. ground (arith, w)) h
  checked S found (err e) h = tt

  -- Every line is checked before any is added.
  lines-Waiting :
      (ids : List ℕ) (S : ℕ → Bool)
      → Ensures
          (Waiting S)
          (λ rows. Waiting (also (λ k. has k (map order_of rows)) S))
          (collect ids (batch_line env supplier_id))
  unfolding collect
  lines-Waiting [] S = record { at = λ db h. fewer _ _ db (λ k w. ground (arith, w)) h }
  lines-Waiting (i ∷ ids) S = record {
    at = λ db h.
        looped (lines-Waiting ids) (batch_line env supplier_id i db)
          ((batch_line-Waiting S i).at db h);
  }
    where
      looped :
          ((T : ℕ → Bool)
            → Ensures
                (Waiting T)
                (λ rows. Waiting (also (λ k. has k (map order_of rows)) T))
                (collect ids (batch_line env supplier_id)))
          → (o : Result (Option FileRow × Db)) → Post (λ r. Waiting (also (let_through r) S)) o
          → Post
              (λ rows. Waiting (also (λ k. has k (map order_of rows)) S))
              (elim o as (λ _. Result (List FileRow × Db)) [
                | ok (found, after) ↦
                    elim (collect ids (batch_line env supplier_id) after)
                      as (λ _. Result (List FileRow × Db)) [
                        | ok (others, last) ↦
                            ok (elim found [ none ↦ others | some a ↦ a ∷ others ], last)
                        | err e ↦ err e
                      ]
                | err e ↦ err e
              ])
      looped later (ok (found, after)) h =
          checked S found (collect ids (batch_line env supplier_id) after)
            ((later (also (let_through found) S)).at after h)
      looped later (err e) h = tt

-- The file names no supplier order twice.
export_orders-distinct :
    (env : Env) (mapping : ℕ) (rows : List FileRow) (S : ℕ → Bool)
    → Ensures
        (Waiting S)
        (λ _ after. Waiting S after × (repeats (map order_of rows) ≡ false))
        (export_orders env mapping rows)
unfolding export_orders
export_orders-distinct env mapping rows S = record {
  at = λ db h. Post-passed _ _ _ _ db λ distinct.
      (Ensures-bind _ _
          (Keeps-for_each rows _
            λ row. Keeps-bind _ _ (Keeps-raise_when _ _) λ _. Keeps-raise_when _ _)
          λ _. Ensures-pure _ (λ after w. (w, distinct))).at
        db h;
}

module _ (env : Env) (cmd : BatchCreate) (actor : Actor) where
  add_batch-Waiting :
      (rows : List FileRow) (file : ℕ) (S : ℕ → Bool)
      → repeats (map order_of rows) ≡ false
      → ((k : ℕ) → has k (map order_of rows) ≡ true → S k ≡ true)
      → Ensures (Waiting S) (λ _. Waiting nobody) (add_batch env cmd actor rows file)
  unfolding add_batch
  add_batch-Waiting rows file S distinct sub = Ensures-bind _ _ Keeps-new_id λ i.
      Ensures-bind _ _ (Keeps-elsewhere _ (λ db. refl)) λ _. record {
        at = λ db h.
            Post-then (λ _. Waiting nobody) (λ _. Waiting nobody) _ _ db
              ((add_lines-Waiting env i cmd.supplier_id actor rows S distinct sub).at db h)
              (λ _ mid w.
                Post-keeps (Waiting nobody) _ mid w
                  (Keeps-bind _ _ (Keeps-elsewhere _ (λ here. refl)) λ _. Keeps-pure _));
      }

  new_batch-Ensures : Ensures (Waiting nobody) (λ _. Waiting nobody) (new_batch env cmd actor)
  unfolding new_batch
  new_batch-Ensures = Ensures-bind _ _ (check_profile-keeps _) λ profile. record {
    at = λ db h.
        Post-then (λ rows. Waiting (also (λ k. has k (map order_of rows)) nobody)) _ _ _ db
          ((lines-Waiting env cmd.supplier_id _ nobody).at db h)
          λ rows mid w.
            Post-then _ _ _ _ mid ((export_orders-distinct env profile.mapping rows _).at mid w)
              λ file after (waits, distinct).
                (add_batch-Waiting rows file _ distinct (λ k e. ground (arith, e))).at after waits;
  }

outcome : {A : Type 0} (P : Db → Type 0) (r : Result (A × Db)) → Post (λ _. P) r → Outcome P r
outcome P (ok (a, after)) h = h
outcome P (err e) h = tt

new_batch-Waiting :
    (env : Env) (cmd : BatchCreate) (actor : Actor)
    → Keeps (Waiting nobody) (new_batch env cmd actor)
new_batch-Waiting env cmd actor = record {
  at = λ db h.
      outcome (Waiting nobody) (new_batch env cmd actor db)
        ((new_batch-Ensures env cmd actor).at db h);
}

pub create_batch-Waiting :
    (env : Env) (cmd : BatchCreate) (actor : Actor)
    → Keeps (Waiting nobody) (create_batch env cmd actor)
create_batch-Waiting = create_batch-keeps new_batch-Waiting

pub lines_sends : Sends (Waiting nobody)
lines_sends = free_sends free_payment create_batch-Waiting
