-- ===== src/Worker/Earliest.antt =====
-- Which job a tick takes.
use saup.Base.{
  ℕ, ◌≤◌, ◌≡◌, refl, subst, if◌then◌else◌, Bool, true, false, ◌&&◌, Bool-cases, inl, inr, any, ltb,
  List, [], ◌∷◌, none, some, Option-cases, arith,
}
use saup.Store.Rows.{Job}
use saup.Worker.{is_due, next_job}

-- When no job is found, none is due.
pub none_due : (t : ℕ) (jobs : List Job) → next_job t jobs ≡ none → any (is_due t) jobs ≡ false
unfolding next_job
none_due t [] h = refl
none_due t (r ∷ jobs) h = elim (Bool-cases (is_due t r)) [
  | inl due ↦ elim (Option-cases (next_job t jobs)) [
    | inl missing ↦ ground (arith, due, missing, h)
    | inr (k, found) ↦ ground (arith, due, found, h)
  ]
  | inr waits ↦ let rest = none_due t jobs in ground (arith, waits, h, rest)
]

-- Whether a job is due, and was before the bound.
abbrev pub is_earlier : ℕ → ℕ → Job → Bool
is_earlier t bound r = is_due t r && ltb r.next_run_at bound

none_earlier :
    (t bound : ℕ) (jobs : List Job)
    → any (is_due t) jobs ≡ false
    → any (is_earlier t bound) jobs ≡ false
none_earlier t bound [] h = refl
none_earlier t bound (r ∷ jobs) h = ground (arith, h, none_earlier t bound jobs)

lower_bound :
    (t low high : ℕ) (jobs : List Job)
    → low ≤ high
    → any (is_earlier t high) jobs ≡ false
    → any (is_earlier t low) jobs ≡ false
lower_bound t low high [] le h = refl
lower_bound t low high (r ∷ jobs) le h = ground (arith, le, h, lower_bound t low high jobs le)

module _ (t : ℕ) (jobs : List Job) where
  abbrev Earliest : Job → Type 0
  Earliest j = (is_due t j ≡ true) × (any (is_earlier t j.next_run_at) jobs ≡ false)

  head_earliest :
      (r : Job)
      → any (is_earlier t r.next_run_at) jobs ≡ false
      → any (is_earlier t r.next_run_at) (r ∷ jobs) ≡ false
  head_earliest r h = ground (arith, h)

pub some_eq : (r j : Job) → some r ≡ some j → r ≡ j
some_eq r j h = cc

-- Of two jobs that are due, the one that is taken.
earlier_of :
    (t : ℕ) (r k j : Job) (jobs : List Job)
    → is_due t r ≡ true
    → Earliest t jobs k
    → (if ltb r.next_run_at k.next_run_at then some r else some k) ≡ some j
    → Earliest t (r ∷ jobs) j
earlier_of t r k j jobs due (later, none_before) h =
    elim (Bool-cases (ltb r.next_run_at k.next_run_at)) [
      | inl less ↦ subst (Earliest t (r ∷ jobs)) (some_eq r j (ground (arith, less, h))) (
        due,
        head_earliest t jobs r
            (lower_bound t r.next_run_at k.next_run_at jobs (ground (arith, less)) none_before),
      )
      | inr more ↦
          subst (Earliest t (r ∷ jobs)) (some_eq k j (ground (arith, more, h)))
            (later, ground (arith, more, none_before))
    ]

-- The job that a tick takes is due, and no job that is due was so before it.
pub next_job_earliest :
    (t : ℕ) (jobs : List Job) (j : Job)
    → next_job t jobs ≡ some j
    → (is_due t j ≡ true) × (any (is_earlier t j.next_run_at) jobs ≡ false)
unfolding next_job
next_job_earliest t [] j h = cc
next_job_earliest t (r ∷ jobs) j h = elim (Bool-cases (is_due t r)) [
  | inl due ↦ elim (Option-cases (next_job t jobs)) [
    | inl missing ↦
        subst (Earliest t (r ∷ jobs)) (some_eq r j (ground (arith, due, missing, h))) (
          due,
          head_earliest t jobs r (none_earlier t r.next_run_at jobs (none_due t jobs missing)),
        )
    | inr (k, found) ↦
        earlier_of t r k j jobs due (next_job_earliest t jobs k found)
          (ground (arith, due, found, h))
  ]
  | inr waits ↦
      let (due, rest) = next_job_earliest t jobs j (ground (arith, waits, h)) in
      (due, ground (arith, waits, rest))
]
