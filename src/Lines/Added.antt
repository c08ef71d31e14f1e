-- ===== src/Lines/Added.antt =====
-- The lines that a new batch adds, one after the other.
use saup.Base.{
  ℕ, ◌≤◌, ◌≡◌, refl, sym, ap, ◌∙◌, subst, Bool, true, false, ◌==◌, has, repeats, map, List, [], ◌∷◌,
  ◌++◌, arith, Bool-cases, inl, inr, Option, some, none, find-passes,
}
use saup.Domain.Errors.{Error}
use saup.Domain.SupplierState.{Actor}
use saup.Store.Db.{Db, Env}
use saup.Store.Rows.{SupplierOrder}
use saup.Store.CaseRows.{BatchItem, FileRow}
use saup.Store.Monad.{M, pure, raise, gets, modify, for_each, on_some, ◌>>=◌}
use saup.Store.Monad.Ensures.{Post, Ensures, Ensures-bind, Post-then, Post-keeps, followed}
use saup.Store.Tables.{find_supplier_order}
use saup.Application.SupplierOperations.Batches.{insert_item, add_line}
use saup.Application.SupplierOperations.Cancel.{present_order}
use saup.Effects.{effects_quiet}
use saup.Effects.Suppliers.{supplier_transition-keeps, intervention-keeps, intent-keeps}
use saup.Lines.{active_lines, Waiting, nobody, fewer, append_line}
use saup.Lines.Kept.{lines_effects}

one_more :
    (so_id other : ℕ) (items : List BatchItem) (item : BatchItem)
    → item.supplier_order_id ≡ so_id
    → active_lines so_id items ≡ 0
    → active_lines other items ≤ 1
    → active_lines other (items ++ item ∷ []) ≤ 1
one_more so_id other items item named absent h = elim (Bool-cases (so_id == other)) [
  | inl same ↦
      let so≡other : so_id ≡ other = grind arith in
      let none_yet : active_lines other items ≡ 0 =
        subst (λ i. active_lines i items ≡ 0) so≡other absent in
      ground (arith, append_line other items item, none_yet)
  | inr differs ↦ ground (arith, append_line other items item, named, differs)
]

apart : (T : ℕ → Bool) (i k : ℕ) → T i ≡ false → T k ≡ true → (i == k) ≡ false
apart T i k gone waits = elim (Bool-cases (i == k)) [
  | inl same ↦
      (let here : i ≡ k = ground (arith, same) in absurd (never (sym gone ∙ ap T here ∙ waits)))
  | inr differs ↦ differs
]
  where
    never : false ≡ true → ⊥
    never e = cc

none_more :
    (so_id other : ℕ) (items : List BatchItem) (item : BatchItem)
    → item.supplier_order_id ≡ so_id
    → (so_id == other) ≡ false
    → active_lines other items ≡ 0
    → active_lines other (items ++ item ∷ []) ≡ 0
none_more so_id other items item named differs h =
    ground (arith, append_line other items item, named, differs)

-- The new line's supplier order waits no longer, and the others do.
insert_item-Waiting :
    (S T : ℕ → Bool) (batch_id supplier_id so_id snapshot_hash : ℕ)
    → S so_id ≡ true
    → T so_id ≡ false
    → ((k : ℕ) → T k ≡ true → S k ≡ true)
    → Ensures (Waiting S) (λ _. Waiting T) (insert_item batch_id supplier_id so_id snapshot_hash)
unfolding insert_item modify
insert_item-Waiting S T batch_id supplier_id so_id snapshot_hash waits gone sub = record {
  at = λ db h. record {
    one = record {
      at_most = λ other.
          one_more so_id other db.batch_items _ refl (h.free so_id waits) (h.one.at_most other);
    };
    free = λ k w.
        none_more so_id k db.batch_items _ refl (apart T so_id k gone w) (h.free k (sub k w));
  };
}

Post-present_order :
    {A : Type 0} (Q : A → Db → Type 0) (i : ℕ) (k : SupplierOrder → M A) (db : Db)
    → ((so : SupplierOrder) → so.id ≡ i → Post Q (k so db))
    → Post Q ((present_order i >>= k) db)
unfolding present_order ◌>>=◌
Post-present_order Q i k db h = shown (find_supplier_order i db) _ refl
  where
    named : (so : SupplierOrder) → find_supplier_order i db ≡ some so → so.id ≡ i
    named so found =
        let passes = find-passes (λ (r : SupplierOrder). r.id == i) db.supplier_orders so found in
        ground (arith, passes)

    shown :
        (o : Option SupplierOrder) (e : Error)
        → find_supplier_order i db ≡ o
        → Post Q ((on_some o (raise e) (λ so. pure so) >>= k) db)
    shown none e missing = tt
    shown (some so) e found = h so (named so found)

pub Post-gets :
    {A B : Type 0} (Q : A → Db → Type 0) (f : Db → B) (k : B → M A) (db : Db)
    → Post Q (k (f db) db)
    → Post Q ((gets f >>= k) db)
unfolding ◌>>=◌
Post-gets Q f k db h = h

abbrev pub order_of : FileRow → ℕ
order_of r = r.supplier_order_id

module _ (env : Env) (batch_id supplier_id : ℕ) (actor : Actor) where
  add_line-Waiting :
      (S T : ℕ → Bool) (row : FileRow)
      → S row.supplier_order_id ≡ true
      → T row.supplier_order_id ≡ false
      → ((k : ℕ) → T k ≡ true → S k ≡ true)
      → Ensures (Waiting S) (λ _. Waiting T) (add_line env batch_id supplier_id actor row)
  unfolding add_line
  add_line-Waiting S T row waits gone sub = record {
    at = λ db h.
        Post-present_order (λ _. Waiting T) row.supplier_order_id _ db
          λ so named.
            (Ensures-bind _ _ (supplier_transition-keeps _ _ _) λ _.
                Ensures-bind _ _ (supplier_transition-keeps _ _ _) λ _.
                  Ensures-bind _ _ (intent-keeps _ _) λ v. record {
                    at = λ here w.
                        Post-then (λ _. Waiting T) (λ _. Waiting T) _ _ here
                          ((insert_item-Waiting S T batch_id supplier_id so.id v.snapshot_hash
                              (ap S named ∙ waits) (ap T named ∙ gone) sub).at
                            here w)
                          (λ _ mid later.
                            Post-keeps (Waiting T) _ mid later (intervention-keeps _ _ _));
                  }).at
              db h;
  }

  pub add_lines-Waiting :
      (rows : List FileRow) (S : ℕ → Bool)
      → repeats (map order_of rows) ≡ false
      → ((k : ℕ) → has k (map order_of rows) ≡ true → S k ≡ true)
      → Ensures
          (Waiting S)
          (λ _. Waiting nobody)
          (for_each rows (add_line env batch_id supplier_id actor))
  unfolding for_each
  add_lines-Waiting [] S distinct sub = record {
    at = λ db h. fewer S nobody db (λ k e. ground arith) h;
  }
  add_lines-Waiting (r ∷ rows) S distinct sub = record {
    at = λ db h.
        followed (λ _. Waiting (λ k. has k (map order_of rows))) (λ _. Waiting nobody)
          (add_line env batch_id supplier_id actor r db) _
          ((add_line-Waiting S (λ k. has k (map order_of rows)) r
              (sub r.supplier_order_id (ground arith)) (ground (arith, distinct))
              (λ k w. sub k (ground (arith, w)))).at
            db h)
          (λ _ mid w.
            (add_lines-Waiting rows (λ k. has k (map order_of rows)) (ground (arith, distinct))
                (λ k e. e)).at
              mid w);
  }
