-- ===== src/Base/Lists.antt =====
-- Lists measured by native numbers, and the searches and updates that a table of rows needs.
use Prim.Native.Nat.{ℕ, suc, ◌+◌}
use mathlib.Core.Path.{◌≡◌}
use native.Mathlib.Omega.{arith}
use mathlib.Core.Bool.{Bool, true, false, ◌||◌, ◌&&◌}
use mathlib.Core.List.{List, [], ◌∷◌}
use mathlib.Core.Option.{Option, none, some}
use saup.Base.Tests.{if◌then◌else◌, ◌==◌, leb}

module _ {ℓ} {A : Type ℓ} where
  abbrev pub length : List A → ℕ
  length [] = 0
  length (x ∷ xs) = suc (length xs)

  -- `select(T).where(p)`: the first row that passes.
  abbrev pub find? : (A → Bool) → List A → Option A
  find? p [] = none
  find? p (x ∷ xs) = if p x then some x else find? p xs

  abbrev pub any : (A → Bool) → List A → Bool
  any p [] = false
  any p (x ∷ xs) = p x || any p xs

  -- `select(func.sum(f)).where(p)`, where no row is 0.
  abbrev pub sum_where : (A → Bool) → (A → ℕ) → List A → ℕ
  sum_where p f [] = 0
  sum_where p f (x ∷ xs) = let rest = sum_where p f xs in if p x then f x + rest else rest

  -- A write to the first row that passes.
  abbrev pub update : (A → Bool) → (A → A) → List A → List A
  update p g [] = []
  update p g (x ∷ xs) = if p x then g x ∷ xs else x ∷ update p g xs

  abbrev pub filter : (A → Bool) → List A → List A
  filter p [] = []
  filter p (x ∷ xs) = let rest = filter p xs in if p x then x ∷ rest else rest

  abbrev pub all : (A → Bool) → List A → Bool
  all p [] = true
  all p (x ∷ xs) = p x && all p xs

-- `n in numbers`
abbrev pub has : ℕ → List ℕ → Bool
has n numbers = any (λ m. m == n) numbers

-- `len(numbers) != len(set(numbers))`
abbrev pub repeats : List ℕ → Bool
repeats [] = false
repeats (n ∷ numbers) = has n numbers || repeats numbers

-- `set(numbers) <= set(others)`
abbrev pub within : List ℕ → List ℕ → Bool
within numbers others = all (λ n. has n others) numbers

module _ {ℓ} {A : Type ℓ} (key : A → ℕ) where
  abbrev insert_by : A → List A → List A
  insert_by x [] = x ∷ []
  insert_by x (y ∷ ys) = if leb (key x) (key y) then x ∷ y ∷ ys else y ∷ insert_by x ys

  -- `sorted(rows, key=key)`
  abbrev pub sort_by : List A → List A
  sort_by [] = []
  sort_by (x ∷ xs) = insert_by x (sort_by xs)

-- `sorted(numbers)`
abbrev pub sorted_numbers : List ℕ → List ℕ
sorted_numbers = sort_by (λ n. n)

-- The row that is found passes its test, and a write to it is found again.
module _ {A : Type 0} (p : A → Bool) where
  pub find-passes : (xs : List A) (a : A) → find? p xs ≡ some a → p a ≡ true
  find-passes [] a h = ground arith
  find-passes (x ∷ xs) a h = ground (arith, find-passes xs a)

  pub find-update :
      (g : A → A) (xs : List A) (a : A)
      → ((x : A) → p (g x) ≡ p x)
      → find? p xs ≡ some a
      → find? p (update p g xs) ≡ some (g a)
  find-update g [] a same h = ground arith
  find-update g (x ∷ xs) a same h = ground (arith, same x, find-update g xs a same)
