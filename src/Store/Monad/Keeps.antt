-- ===== src/Store/Monad/Keeps.antt =====
-- Invariants of transactions, with one rule for each way to build a block.
use saup.Base.{◌+◌, Bool, true, false, Option, none, some, ◌≡◌, refl, List, [], ◌∷◌, if◌then◌else◌}
use saup.Domain.Errors.{Result, ok, err, Error}
use saup.Store.Db.{Db}
use saup.Store.Monad.{
  M, pure, raise, gets, lift, present, catch, on_some, modify, raise_when, when, fresh, for_each,
  collect, commit, ◌>>=◌,
}

-- What has to hold of an outcome that began in a state with `P`.
abbrev pub Outcome {ℓ} : {A : Type 0} → (Db → Type ℓ) → Result (A × Db) → Type ℓ
Outcome P (ok (a, after)) = P after
Outcome P (err e) = Unit

-- What leads to an outcome from one state, which a block that only reads leaves as it is.
module _ {ℓ} (P : Db → Type ℓ) {A : Type 0} where
  pub Outcome-after :
      (b : Bool) (e : Error) (m : M A) (db : Db)
      → (b ≡ false → Outcome P (m db))
      → Outcome P ((raise_when b e >>= λ _. m) db)
  unfolding ◌>>=◌
  Outcome-after true e m db k = tt
  Outcome-after false e m db k = k refl

  pub Outcome-gets :
      {B : Type 0} (f : Db → B) (k : B → M A) (db : Db)
      → Outcome P (k (f db) db)
      → Outcome P ((gets f >>= k) db)
  unfolding ◌>>=◌
  Outcome-gets f k db h = h

  pub Outcome-on_some {κ} :
      {B : Type κ} (o : Option B) (absent : M A) (found : B → M A) (db : Db)
      → Outcome P (absent db)
      → ((b : B) → Outcome P (found b db))
      → Outcome P (on_some o absent found db)
  unfolding on_some
  Outcome-on_some none absent found db ka kf = ka
  Outcome-on_some (some b) absent found db ka kf = kf b

  pub Outcome-found {κ} :
      {B : Type κ} (o : Option B) (absent : M A) (found : B → M A) (db : Db)
      → (o ≡ none → Outcome P (absent db))
      → ((b : B) → o ≡ some b → Outcome P (found b db))
      → Outcome P (on_some o absent found db)
  unfolding on_some
  Outcome-found none absent found db ka kf = ka refl
  Outcome-found (some b) absent found db ka kf = kf b refl

  Outcome-present :
      {B : Type 0} (o : Option B) (k : B → M A) (db : Db)
      → ((b : B) → o ≡ some b → Outcome P (k b db))
      → Outcome P ((present o >>= k) db)
  unfolding ◌>>=◌
  Outcome-present none k db h = tt
  Outcome-present (some b) k db h = h b refl

  pub Outcome-fetch :
      {B : Type 0} (f : Db → Option B) (k : B → M A) (db : Db)
      → ((b : B) → f db ≡ some b → Outcome P (k b db))
      → Outcome P ((gets f >>= present >>= k) db)
  unfolding ◌>>=◌
  Outcome-fetch f k db h = Outcome-present (f db) k db h

module _ {ℓ} (P : Db → Type ℓ) {A : Type 0} where
  pub Outcome-lift :
      {B : Type 0} (r : Result B) (k : B → M A) (db : Db)
      → ((b : B) → r ≡ ok b → Outcome P (k b db))
      → Outcome P ((lift r >>= k) db)
  unfolding ◌>>=◌
  Outcome-lift (ok b) k db h = h b refl
  Outcome-lift (err e) k db h = tt

module _ {ℓ} (P : Db → Type ℓ) where
  pub Outcome-when :
      (b : Bool) (m : M (Unit {0})) (db : Db) → P db → Outcome P (m db) → Outcome P (when b m db)
  unfolding when
  Outcome-when true m db h k = k
  Outcome-when false m db h k = h

module _ {ℓ} (P : Db → Type ℓ) where
  pub Outcome-raise_when : (b : Bool) (e : Error) (db : Db) → P db → Outcome P (raise_when b e db)
  unfolding raise_when
  Outcome-raise_when true e db h = tt
  Outcome-raise_when false e db h = h

-- A block that returns has kept `P`; one that raises is rolled back.
pub record Keeps {ℓ} {A : Type 0} (P : Db → Type ℓ) (m : M A) : Type ℓ where
  pub at : (db : Db) → P db → Outcome P (m db)

caught {ℓ} :
    {A : Type 0} (P : Db → Type ℓ) (r : Result (A × Db)) (handler : Error → M A) (db : Db)
    → Outcome P r
    → ((e : Error) → Outcome P (handler e db))
    → Outcome P (elim r as (λ _. Result (A × Db)) [ ok x ↦ ok x | err e ↦ handler e db ])
caught P (ok (a, after)) handler db h k = h
caught P (err e) handler db h k = k e

module _ {ℓ} {P : Db → Type ℓ} {A : Type 0} where
  pub Keeps-pure : (a : A) → Keeps P (pure a)
  unfolding pure
  Keeps-pure a = record { at = λ db h. h }

  pub Keeps-raise : (e : Error) → Keeps P (raise {A = A} e)
  unfolding raise
  Keeps-raise e = record { at = λ db h. tt }

  pub Keeps-gets : (f : Db → A) → Keeps P (gets f)
  unfolding gets
  Keeps-gets f = record { at = λ db h. h }

  pub Keeps-lift : (r : Result A) → Keeps P (lift r)
  unfolding lift
  Keeps-lift (ok a) = record { at = λ db h. h }
  Keeps-lift (err e) = record { at = λ db h. tt }

  pub Keeps-present : (o : Option A) → Keeps P (present o)
  unfolding present
  Keeps-present none = record { at = λ db h. tt }
  Keeps-present (some a) = record { at = λ db h. h }

  pub Keeps-catch :
      (m : M A) (handler : Error → M A)
      → Keeps P m
      → ((e : Error) → Keeps P (handler e))
      → Keeps P (catch m handler)
  unfolding catch
  Keeps-catch m handler km kh = record {
    at = λ db h. caught P (m db) handler db (km.at db h) (λ e. (kh e).at db h);
  }

  pub Keeps-on_some {κ} :
      {B : Type κ} (o : Option B) (absent : M A) (found : B → M A)
      → Keeps P absent
      → ((b : B) → Keeps P (found b))
      → Keeps P (on_some o absent found)
  unfolding on_some
  Keeps-on_some none absent found ka kf = ka
  Keeps-on_some (some b) absent found ka kf = kf b

  pub Keeps-if : (b : Bool) (m n : M A) → Keeps P m → Keeps P n → Keeps P (if b then m else n)
  Keeps-if true m n km kn = km
  Keeps-if false m n km kn = kn

module _ {ℓ} {P : Db → Type ℓ} where
  pub Keeps-modify : (f : Db → Db) → ((db : Db) → P db → P (f db)) → Keeps P (modify f)
  unfolding modify
  Keeps-modify f k = record { at = k }

  pub Keeps-raise_when : (b : Bool) (e : Error) → Keeps P (raise_when b e)
  unfolding raise_when
  Keeps-raise_when true e = record { at = λ db h. tt }
  Keeps-raise_when false e = record { at = λ db h. h }

  pub Keeps-when : (b : Bool) (m : M (Unit {0})) → Keeps P m → Keeps P (when b m)
  unfolding when
  Keeps-when true m km = record { at = km.at }
  Keeps-when false m km = record { at = λ db h. h }

  pub Keeps-fresh : ((db : Db) → P db → P (record db { next_id = db.next_id + 1 })) → Keeps P fresh
  unfolding fresh
  Keeps-fresh k = record { at = k }

module _ {ℓ} {P : Db → Type ℓ} {A B : Type 0} where
  chained :
      (r : Result (A × Db)) (f : A → M B)
      → Outcome P r
      → ((a : A) → Keeps P (f a))
      → Outcome P (elim r as (λ _. Result (B × Db)) [ ok (a, after) ↦ f a after | err e ↦ err e ])
  chained (ok (a, after)) f h k = (k a).at after h
  chained (err e) f h k = tt

  pub Keeps-bind :
      (m : M A) (f : A → M B) → Keeps P m → ((a : A) → Keeps P (f a)) → Keeps P (m >>= f)
  unfolding ◌>>=◌
  Keeps-bind m f km kf = record { at = λ db h. chained (m db) f (km.at db h) kf }

module _ {ℓ} {P : Db → Type ℓ} {A : Type 0} where
  -- The rest of the block may use that the test failed.
  pub Keeps-after :
      (b : Bool) (e : Error) (m : M A)
      → (b ≡ false → Keeps P m)
      → Keeps P (raise_when b e >>= λ _. m)
  unfolding ◌>>=◌
  Keeps-after true e m k = record { at = λ db h. tt }
  Keeps-after false e m k = k refl

module _ {ℓ} {P : Db → Type ℓ} {R : Type 0} where
  pub Keeps-for_each :
      (rows : List R) (body : R → M (Unit {0}))
      → ((r : R) → Keeps P (body r))
      → Keeps P (for_each rows body)
  unfolding for_each
  Keeps-for_each [] body k = record { at = λ db h. h }
  Keeps-for_each (r ∷ rows) body k = record {
    at = λ db h. looped (body r db) ((k r).at db h) (Keeps-for_each rows body k);
  }
    where
      looped :
          (o : Result (Unit {0} × Db))
          → Outcome P o
          → Keeps P (for_each rows body)
          → Outcome P (elim o as (λ _. Result (Unit {0} × Db)) [
            | ok (_, after) ↦ for_each rows body after
            | err e ↦ err e
          ])
      looped (ok (a, after)) h rest = rest.at after h
      looped (err e) h rest = tt

module _ {ℓ} (P : Db → Type ℓ) {A : Type 0} where
  gathered :
      (o : Result (List A × Db)) (found : Option A)
      → Outcome P o
      → Outcome P (elim o as (λ _. Result (List A × Db)) [
        | ok (others, last) ↦ ok (elim found [ none ↦ others | some a ↦ a ∷ others ], last)
        | err e ↦ err e
      ])
  gathered (ok (others, last)) found h = h
  gathered (err e) found h = tt

module _ {ℓ} {P : Db → Type ℓ} {R A : Type 0} where
  pub Keeps-collect :
      (rows : List R) (body : R → M (Option A))
      → ((r : R) → Keeps P (body r))
      → Keeps P (collect rows body)
  unfolding collect
  Keeps-collect [] body k = record { at = λ db h. h }
  Keeps-collect (r ∷ rows) body k = record {
    at = λ db h. looped (body r db) ((k r).at db h) (Keeps-collect rows body k);
  }
    where
      looped :
          (o : Result (Option A × Db))
          → Outcome P o
          → Keeps P (collect rows body)
          → Outcome P (elim o as (λ _. Result (List A × Db)) [
            | ok (found, after) ↦ elim (collect rows body after) [
              | ok (others, last) ↦ ok (elim found [ none ↦ others | some a ↦ a ∷ others ], last)
              | err e ↦ err e
            ]
            | err e ↦ err e
          ])
      looped (ok (found, after)) h rest =
          gathered P (collect rows body after) found (rest.at after h)
      looped (err e) h rest = tt

module _ {ℓ} (P : Db → Type ℓ) {A B : Type 0} where
  -- A block that begins in a known state and goes on in any.
  pub Outcome-bind :
      (m : M A) (f : A → M B) (db : Db)
      → Outcome P (m db)
      → ((a : A) → Keeps P (f a))
      → Outcome P ((m >>= f) db)
  unfolding ◌>>=◌
  Outcome-bind m f db h kf = chained (m db) f h kf

module _ {ℓ} {A : Type 0} where
  committed :
      (P : Db → Type ℓ) (r : Result (A × Db)) (before : Db)
      → P before
      → Outcome P r
      → P
          (elim r as (λ _. Result A × Db) [
            | ok (a, after) ↦ (ok a, after)
            | err e ↦ (err e, before)
          ]).1
  committed P (ok (a, after)) before h k = k
  committed P (err e) before h k = h

  -- The state after a transaction, whether it was committed or rolled back.
  pub commit-Keeps : {P : Db → Type ℓ} (m : M A) (db : Db) → Keeps P m → P db → P (commit m db).1
  unfolding commit
  commit-Keeps m db k h = committed _ (m db) db h (k.at db h)

pub ruleset keeps_rules = (
  Keeps-pure, Keeps-raise, Keeps-gets, Keeps-lift, Keeps-present, Keeps-catch, Keeps-on_some,
  Keeps-if, Keeps-raise_when, Keeps-when, Keeps-bind, Keeps-for_each, Keeps-collect, Keeps-modify,
  Keeps-fresh,
)
