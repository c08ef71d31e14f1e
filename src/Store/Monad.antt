-- ===== src/Store/Monad.antt =====
-- A transaction: `factory.begin()` commits when its block returns and rolls everything back when an
-- exception leaves it, so a block that raises yields its exception and no state.
pub mod Keeps
pub mod Ensures
use saup.Base.{ℕ, ◌+◌, Bool, true, false, Option, none, some, inl, inr, ◌≡◌, List, [], ◌∷◌}
use saup.Domain.Errors.{Result, ok, err, Error, unexpected, Result-cases}
use saup.Store.Db.{Db}

abbrev pub M : Type 0 → Type 0
M A = Db → Result (A × Db)

module _ {A : Type 0} where
  unfoldable pub pure : A → M A
  pure a db = ok (a, db)

  unfoldable pub raise : Error → M A
  raise e db = err e

  unfoldable pub gets : (Db → A) → M A
  gets f db = ok (f db, db)

  -- The outcome of a function that touches no table.
  unfoldable pub lift : Result A → M A
  lift (ok a) db = ok (a, db)
  lift (err e) db = err e

  -- A row that may be missing: reading a field of `None` raises.
  unfoldable pub present : Option A → M A
  present none db = err unexpected
  present (some a) db = ok (a, db)

  -- `try` round a block in `begin_nested()`, or round one that changes nothing.
  unfoldable pub catch : M A → (Error → M A) → M A
  catch m handler db = elim (m db) [ ok r ↦ ok r | err e ↦ handler e db ]

  -- `if o: ... else: ...` on a row that was looked up.
  unfoldable pub on_some {κ} : {B : Type κ} → Option B → M A → (B → M A) → M A
  on_some none absent found = absent
  on_some (some b) absent found = found b

unfoldable pub modify : (Db → Db) → M (Unit {0})
modify f db = ok (tt, f db)

-- `if test: raise error`
unfoldable pub raise_when : Bool → Error → M (Unit {0})
raise_when true e db = err e
raise_when false e db = ok (tt, db)

-- `if test: ...`
unfoldable pub when : Bool → M (Unit {0}) → M (Unit {0})
when true m db = m db
when false m db = ok (tt, db)

-- `uid()`
unfoldable pub fresh : M ℕ
fresh db = ok (db.next_id, record db { next_id = db.next_id + 1 })

-- A loop over rows.
unfoldable pub for_each : {R : Type 0} → List R → (R → M (Unit {0})) → M (Unit {0})
for_each [] body db = ok (tt, db)
for_each (r ∷ rows) body db = elim (body r db) [
  | ok (_, after) ↦ for_each rows body after
  | err e ↦ err e
]

-- A loop that notes what the body finds, in the order of the rows.
unfoldable pub collect : {R A : Type 0} → List R → (R → M (Option A)) → M (List A)
collect [] body db = ok ([], db)
collect (r ∷ rows) body db = elim (body r db) [
  | ok (found, after) ↦ elim (collect rows body after) [
    | ok (others, last) ↦ ok (elim found [ none ↦ others | some a ↦ a ∷ others ], last)
    | err e ↦ err e
  ]
  | err e ↦ err e
]

infixl 5 ◌>>=◌ ◌>>◌
unfoldable pub ◌>>=◌ : {A B : Type 0} → M A → (A → M B) → M B
unfolding pure raise gets lift present catch on_some modify raise_when when fresh
◌>>=◌ m f db = elim (m db) [ ok (a, after) ↦ f a after | err e ↦ err e ]

abbrev pub ◌>>◌ : {A B : Type 0} → M A → M B → M B
m >> k = m >>= λ _. k

-- What the caller of a transaction sees: its outcome, and the state that was committed.
unfoldable pub commit : {A : Type 0} → M A → Db → Result A × Db
commit m before = elim (m before) [ ok (a, after) ↦ (ok a, after) | err e ↦ (err e, before) ]
