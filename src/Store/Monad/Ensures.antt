-- ===== src/Store/Monad/Ensures.antt =====
-- What a block that returns says of its answer and its state.
use saup.Base.{Bool, true, false, Option, none, some, ◌≡◌, refl, if◌then◌else◌}
use saup.Domain.Errors.{Result, ok, err, Error}
use saup.Store.Db.{Db}
use saup.Store.Monad.{M, pure, raise, gets, lift, present, on_some, raise_when, ◌>>=◌}
use saup.Store.Monad.Keeps.{Keeps, Outcome}

abbrev pub Post : {A : Type 0} → (A → Db → Type 0) → Result (A × Db) → Type 0
Post Q (ok (a, after)) = Q a after
Post Q (err e) = Unit

pub record Ensures {A : Type 0} (P : Db → Type 0) (Q : A → Db → Type 0) (m : M A) : Type 0 where
  pub at : (db : Db) → P db → Post Q (m db)

module _ {A B : Type 0} (P : Db → Type 0) (Q : B → Db → Type 0) where
  went_on :
      (r : Result (A × Db)) (k : A → M B)
      → Outcome P r
      → ((a : A) → Ensures P Q (k a))
      → Post Q (elim r as (λ _. Result (B × Db)) [ ok (a, after) ↦ k a after | err e ↦ err e ])
  went_on (ok (a, after)) k h later = (later a).at after h
  went_on (err e) k h later = tt

module _ {P : Db → Type 0} {A : Type 0} {Q : A → Db → Type 0} where
  pub Ensures-pure : (a : A) → ((db : Db) → P db → Q a db) → Ensures P Q (pure a)
  unfolding pure
  Ensures-pure a k = record { at = k }

  pub Ensures-raise : (e : Error) → Ensures P Q (raise {A = A} e)
  unfolding raise
  Ensures-raise e = record { at = λ db h. tt }

  pub Ensures-if :
      (b : Bool) (m n : M A) → Ensures P Q m → Ensures P Q n → Ensures P Q (if b then m else n)
  Ensures-if true m n em en = em
  Ensures-if false m n em en = en

  pub Ensures-on_some {κ} :
      {B : Type κ} (o : Option B) (absent : M A) (found : B → M A)
      → Ensures P Q absent
      → ((b : B) → Ensures P Q (found b))
      → Ensures P Q (on_some o absent found)
  unfolding on_some
  Ensures-on_some none absent found ea ef = ea
  Ensures-on_some (some b) absent found ea ef = ef b

  pub Ensures-bind :
      {B : Type 0} (m : M B) (k : B → M A)
      → Keeps P m
      → ((b : B) → Ensures P Q (k b))
      → Ensures P Q (m >>= k)
  unfolding ◌>>=◌
  Ensures-bind m k km ek = record { at = λ db h. went_on P Q (m db) k (km.at db h) ek }

module _ {A B : Type 0} (Q : A → Db → Type 0) where
  Post-present :
      (o : Option B) (k : B → M A) (db : Db)
      → ((b : B) → o ≡ some b → Post Q (k b db))
      → Post Q ((present o >>= k) db)
  unfolding ◌>>=◌
  Post-present none k db h = tt
  Post-present (some b) k db h = h b refl

  pub Post-fetch :
      (f : Db → Option B) (k : B → M A) (db : Db)
      → ((b : B) → f db ≡ some b → Post Q (k b db))
      → Post Q ((gets f >>= present >>= k) db)
  unfolding ◌>>=◌
  Post-fetch f k db h = Post-present (f db) k db h

module _ {A : Type 0} (Q : A → Db → Type 0) where
  pub Post-found {κ} :
      {B : Type κ} (o : Option B) (absent : M A) (found : B → M A) (db : Db)
      → Post Q (absent db)
      → ((b : B) → o ≡ some b → Post Q (found b db))
      → Post Q (on_some o absent found db)
  unfolding on_some
  Post-found none absent found db pa pf = pa
  Post-found (some b) absent found db pa pf = pf b refl

module _ {A B : Type 0} (Q : B → Db → Type 0) where
  pub Post-lift :
      (r : Result A) (k : A → M B) (db : Db)
      → ((a : A) → Post Q (k a db))
      → Post Q ((lift r >>= k) db)
  unfolding ◌>>=◌
  Post-lift (ok a) k db h = h a
  Post-lift (err e) k db h = tt

module _ {B : Type 0} (Q : B → Db → Type 0) where
  pub Post-passed :
      (b : Bool) (e : Error) (k : Unit {0} → M B) (db : Db)
      → (b ≡ false → Post Q (k tt db))
      → Post Q ((raise_when b e >>= k) db)
  unfolding ◌>>=◌
  Post-passed true e k db h = tt
  Post-passed false e k db h = h refl

pub Post-raise_when :
    (Q : Unit {0} → Db → Type 0) (b : Bool) (e : Error) (db : Db)
    → (b ≡ false → Q tt db)
    → Post Q (raise_when b e db)
unfolding raise_when
Post-raise_when Q true e db h = tt
Post-raise_when Q false e db h = h refl

kept_there : {A : Type 0} (P : Db → Type 0) (r : Result (A × Db)) → Outcome P r → Post (λ _. P) r
kept_there P (ok (a, after)) h = h
kept_there P (err e) h = tt

-- What holds at the start of a block that keeps it holds at its end.
pub Post-keeps :
    {A : Type 0} (P : Db → Type 0) (m : M A) (db : Db) → P db → Keeps P m → Post (λ _. P) (m db)
Post-keeps P m db h kept = kept_there P (m db) (kept.at db h)

-- What is shown of every outcome that returns.
pub Post-returned :
    {A : Type 0} (Q : A → Db → Type 0) (r : Result (A × Db))
    → ((a : A) (after : Db) → r ≡ ok (a, after) → Q a after)
    → Post Q r
Post-returned Q (ok (a, after)) h = h a after refl
Post-returned Q (err e) h = tt

pub followed :
    {A B : Type 0} (R : A → Db → Type 0) (Q : B → Db → Type 0) (r : Result (A × Db)) (k : A → M B)
    → Post R r
    → ((a : A) (mid : Db) → R a mid → Post Q (k a mid))
    → Post Q (elim r as (λ _. Result (B × Db)) [ ok (a, after) ↦ k a after | err e ↦ err e ])
followed R Q (ok (a, after)) k h later = later a after h
followed R Q (err e) k h later = tt

-- One block after another, from what the first leaves.
pub Post-then :
    {A B : Type 0} (R : A → Db → Type 0) (Q : B → Db → Type 0) (m : M A) (k : A → M B) (db : Db)
    → Post R (m db)
    → ((a : A) (mid : Db) → R a mid → Post Q (k a mid))
    → Post Q ((m >>= k) db)
unfolding ◌>>=◌
Post-then R Q m k db h later = followed R Q (m db) k h later

-- A weaker claim of an outcome.
pub Post-map :
    {A : Type 0} (R Q : A → Db → Type 0) (r : Result (A × Db))
    → Post R r
    → ((a : A) (after : Db) → R a after → Q a after)
    → Post Q r
Post-map R Q (ok (a, after)) h f = f a after h
Post-map R Q (err e) h f = tt

-- The answer is false, wherever the block begins.
abbrev pub SaysFalse : M Bool → Type 0
SaysFalse = Ensures (λ db. Unit {0}) (λ b db. b ≡ false)

module _ {A : Type 0} where
  anything : (r : Result (A × Db)) → Outcome (λ db. Unit {0}) r
  anything (ok (a, after)) = tt
  anything (err e) = tt

  pub Keeps-anything : (m : M A) → Keeps (λ db. Unit {0}) m
  Keeps-anything m = record { at = λ db h. anything (m db) }

-- What the rest says in every state does not depend on what came before.
pub Ensures-after :
    {A B : Type 0} {P : Db → Type 0} {Q : A → Db → Type 0} (m : M B) (k : B → M A)
    → ((b : B) → Ensures (λ db. Unit {0}) Q (k b))
    → Ensures P Q (m >>= k)
Ensures-after m k says = record { at = λ db h. (Ensures-bind m k (Keeps-anything m) says).at db tt }

pub SaysFalse-pure : SaysFalse (pure false)
SaysFalse-pure = Ensures-pure false (λ db h. refl)

pub SaysFalse-then :
    {B : Type 0} (m : M B) (k : B → M Bool) → ((b : B) → SaysFalse (k b)) → SaysFalse (m >>= k)
SaysFalse-then m k says = Ensures-bind m k (Keeps-anything m) says

pub SaysFalse-raise : (e : Error) → SaysFalse (raise e)
SaysFalse-raise e = Ensures-raise e

pub ruleset false_rules = (SaysFalse-pure, SaysFalse-then, SaysFalse-raise)

strengthened :
    (Q : Db → Type 0) (r : Result (Bool × Db))
    → Post (λ b db. b ≡ false) r
    → Post (λ b db. b ≡ true → Q db) r
strengthened Q (ok (b, after)) h = λ answer. cc
strengthened Q (err e) h = tt

pub of_false :
    {P : Db → Type 0} (Q : Db → Type 0) (m : M Bool)
    → SaysFalse m
    → Ensures P (λ b db. b ≡ true → Q db) m
of_false Q m says = record { at = λ db h. strengthened Q (m db) (says.at db tt) }
