-- ===== src/Application/SupplierOperations/Acknowledge/Coverage.antt =====
-- What the check in `acknowledge` of packages/application/supplier_operations.py means: each line of the
-- batch has one answer.
use saup.Base.{
  ℕ, ◌+◌, ◌≤◌, ◌≡◌, refl, Bool, true, false, not, ◌||◌, ◌==◌, has, repeats, within, if◌then◌else◌,
  List, [], ◌∷◌, arith, Bool-cases, inl, inr, ◌↔◌,
}
use saup.Domain.Errors.{
  Error, ok, domain, ack_batch_membership_mismatch, ack_change_membership_mismatch,
}
use saup.Domain.SupplierCommands.{Acknowledge}
use saup.Store.Db.{Db}
use saup.Store.Monad.{raise_when, ◌>>=◌}
use saup.Application.SupplierOperations.Acknowledge.{reported_ids, changed_ids, check_answer}

abbrev pub occurrences : ℕ → List ℕ → ℕ
occurrences n [] = 0
occurrences n (m ∷ numbers) = let rest = occurrences n numbers in if m == n then rest + 1 else rest

absent : (n : ℕ) (numbers : List ℕ) → has n numbers ≡ false → occurrences n numbers ≡ 0
absent n [] h = refl
absent n (m ∷ numbers) h = ground (arith, h, absent n numbers)

once : (n : ℕ) (numbers : List ℕ) → repeats numbers ≡ false → occurrences n numbers ≤ 1
once n [] h = ground arith
once n (m ∷ numbers) h = elim (Bool-cases (m == n)) [
  | inl e ↦
      let m≡n : m ≡ n = grind arith in
      let gone : has n numbers ≡ false = rw (← m≡n) (ground (arith, h)) in
      ground (arith, e, absent n numbers gone)
  | inr e ↦ ground (arith, h, e, once n numbers)
]

present : (n : ℕ) (numbers : List ℕ) → has n numbers ≡ true → 1 ≤ occurrences n numbers
present n [] h = ground (arith, h)
present n (m ∷ numbers) h = ground (arith, h, present n numbers)

no_repeats : (numbers : List ℕ) → ((n : ℕ) → occurrences n numbers ≤ 1) → repeats numbers ≡ false
no_repeats [] h = refl
no_repeats (m ∷ numbers) h =
    ground (arith, h m, present m numbers, no_repeats numbers (λ n. ground (arith, h n)))

has-within :
    (n : ℕ) (numbers others : List ℕ)
    → within numbers others ≡ true
    → has n numbers ≡ true
    → has n others ≡ true
has-within n [] others h there = ground (arith, there)
has-within n (m ∷ numbers) others h there = elim (Bool-cases (m == n)) [
  | inl e ↦ let m≡n : m ≡ n = grind arith in rw (← m≡n) (ground (arith, h))
  | inr e ↦ has-within n numbers others (ground (arith, h)) (ground (arith, there, e))
]

all_within :
    (numbers others : List ℕ)
    → ((n : ℕ) → has n numbers ≡ true → has n others ≡ true)
    → within numbers others ≡ true
all_within [] others h = refl
all_within (m ∷ numbers) others h =
    ground (arith, h m, all_within numbers others (λ n there. h n (ground (arith, there))))

-- Each line is answered once, and no other; a line has at most one report of a change.
pub record IsAnswer (cmd : Acknowledge) (ids : List ℕ) : Type 0 where
  pub answered : (n : ℕ) → occurrences n (reported_ids cmd) ≡ (if has n ids then 1 else 0)
  pub changed : (n : ℕ) → occurrences n (changed_ids cmd) ≤ (if has n ids then 1 else 0)

covered :
    (n : ℕ) (numbers ids : List ℕ)
    → repeats numbers ≡ false
    → within numbers ids ≡ true
    → occurrences n numbers ≤ (if has n ids then 1 else 0)
covered n numbers ids distinct inside = elim (Bool-cases (has n numbers)) [
  | inl there ↦ ground (arith, has-within n numbers ids inside there, once n numbers distinct)
  | inr gone ↦ ground (arith, absent n numbers gone)
]

exact :
    (n : ℕ) (numbers ids : List ℕ)
    → repeats numbers ≡ false
    → within numbers ids ≡ true
    → within ids numbers ≡ true
    → occurrences n numbers ≡ (if has n ids then 1 else 0)
exact n numbers ids distinct inside outside = elim (Bool-cases (has n ids)) [
  | inl there ↦ ground (
    arith,
    there,
    present n numbers (has-within n ids numbers outside there),
    once n numbers distinct,
  )
  | inr gone ↦ ground (arith, gone, covered n numbers ids distinct inside)
]

module _ (numbers ids : List ℕ)
    (h : (n : ℕ) → occurrences n numbers ≤ (if has n ids then 1 else 0)) where
  covered-distinct : repeats numbers ≡ false
  covered-distinct = no_repeats numbers (λ n. ground (arith, h n))

  covered-within : within numbers ids ≡ true
  covered-within = all_within numbers ids (λ n there. ground (arith, h n, present n numbers there))

exact-within :
    (numbers ids : List ℕ)
    → ((n : ℕ) → occurrences n numbers ≡ (if has n ids then 1 else 0))
    → within ids numbers ≡ true
exact-within numbers ids h = all_within ids numbers λ n there. elim (Bool-cases (has n numbers)) [
  | inl here ↦ here
  | inr gone ↦ ground (arith, h n, there, absent n numbers gone)
]

two_checks :
    (b c : Bool) (first second : Error) (db : Db)
    → ((raise_when b first >>= λ _. raise_when c second) db ≡ ok (tt, db))
      ↔ ((b ≡ false) × (c ≡ false))
unfolding raise_when ◌>>=◌
two_checks true c first second db = (λ h. ground (arith, h), λ h. ground (arith, h))
two_checks false true first second db = (λ h. ground (arith, h), λ h. ground (arith, h))
two_checks false false first second db = (λ h. (refl, refl), λ h. refl)

-- The check passes exactly for the answers that decide each line of the batch once, report at most one
-- change of it, and name no other line.
pub check_answer_iff :
    (cmd : Acknowledge) (ids : List ℕ) (db : Db)
    → (check_answer cmd ids db ≡ ok (tt, db)) ↔ IsAnswer cmd ids
unfolding check_answer
check_answer_iff cmd ids db =
    let checks =
      two_checks
        (repeats (reported_ids cmd)
          || not (within (reported_ids cmd) ids)
          || not (within ids (reported_ids cmd)))
        (repeats (changed_ids cmd) || not (within (changed_ids cmd) ids))
        (domain ack_batch_membership_mismatch 422) (domain ack_change_membership_mismatch 422) db in
    (
      λ passed.
          let (members, changes) = checks.0 passed in
          record {
            answered = λ n.
                exact n (reported_ids cmd) ids (ground (arith, members)) (ground (arith, members))
                  (ground (arith, members));
            changed = λ n.
                covered n (changed_ids cmd) ids (ground (arith, changes)) (ground (arith, changes));
          },
      λ a. checks.1 (
        ground (
          arith,
          covered-distinct (reported_ids cmd) ids (λ n. ground (arith, a.answered n)),
          covered-within (reported_ids cmd) ids (λ n. ground (arith, a.answered n)),
          exact-within (reported_ids cmd) ids a.answered,
        ),
        ground (
          arith,
          covered-distinct (changed_ids cmd) ids a.changed,
          covered-within (changed_ids cmd) ids a.changed,
        ),
      ),
    )
