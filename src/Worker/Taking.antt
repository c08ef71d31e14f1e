-- ===== src/Worker/Taking.antt =====
-- What a tick's first transaction writes to the job that it takes.
use saup.Base.{
  ℕ, ◌+◌, ◌≡◌, refl, ◌∙◌, subst, Bool, true, false, ◌==◌, ltb, leb, has, repeats, map,
  if◌then◌else◌, List, [], ◌∷◌, some, Option-cases, Bool-cases, inl, inr, find?, update, none, ◌⊎◌,
  arith,
}
use saup.Domain.Errors.{Result, ok, err}
use saup.Store.Db.{Db, Env}
use saup.Store.Keys.{job_dead_letter, category_eq}
use saup.Store.Rows.{Job, dead, running}
use saup.Store.Monad.{pure, gets, modify, fresh, when, on_some, ◌>>=◌}
use saup.Application.Common.{review, is_category, is_resolved}
use saup.Worker.{lease_seconds, is_due, next_job, Taken, buried, exhaust_job, lease_job, take_job}
use saup.Worker.Earliest.{some_eq}

abbrev id_of : Job → ℕ
id_of j = j.id

abbrev pub ids : List Job → List ℕ
ids jobs = map id_of jobs

abbrev pub due_count : ℕ → List Job → ℕ
due_count t [] = 0
due_count t (j ∷ jobs) = let rest = due_count t jobs in if is_due t j then rest + 1 else rest

-- Where a job's identifier is.
taken_id :
    (t : ℕ) (jobs : List Job) (j : Job) → next_job t jobs ≡ some j → has j.id (ids jobs) ≡ true
unfolding next_job
taken_id t [] j h = cc
taken_id t (r ∷ jobs) j h = elim (Option-cases (next_job t jobs)) [
  | inl missing ↦ ground (arith, missing, h)
  | inr (k, found) ↦ ground (arith, found, h, taken_id t jobs k found)
]

abbrev pub is_job : ℕ → Job → Bool
is_job i r = r.id == i

pub behind :
    (t : ℕ) (r k j : Job) (jobs : List Job)
    → repeats (ids (r ∷ jobs)) ≡ false
    → has k.id (ids jobs) ≡ true
    → find? (is_job k.id) jobs ≡ some k
    → k ≡ j
    → find? (is_job j.id) (r ∷ jobs) ≡ some j
behind t r k j jobs distinct there found same =
    subst (λ i. find? (is_job i.id) (r ∷ jobs) ≡ some i) same
      (ground (arith, distinct, there, found))

-- The job is the one with its identifier.
pub taken_row :
    (t : ℕ) (jobs : List Job) (j : Job)
    → repeats (ids jobs) ≡ false
    → next_job t jobs ≡ some j
    → find? (is_job j.id) jobs ≡ some j
unfolding next_job
taken_row t [] j distinct h = cc
taken_row t (r ∷ jobs) j distinct h = elim (Option-cases (next_job t jobs)) [
  | inl missing ↦ ground (arith, missing, h)
  | inr (k, found) ↦
      let row = taken_row t jobs k (ground (arith, distinct)) found in
      let there = taken_id t jobs k found in
      elim (Bool-cases (is_due t r)) [
        | inl due ↦ elim (Bool-cases (ltb r.next_run_at k.next_run_at)) [
          | inl less ↦ ground (arith, found, due, less, h)
          | inr more ↦
              behind t r k j jobs distinct there row
                (some_eq k j (ground (arith, found, due, more, h)))
        ]
        | inr waits ↦
            behind t r k j jobs distinct there row (some_eq k j (ground (arith, found, waits, h)))
      ]
]

-- A write that ends a row's being due.
pub due_less :
    (t : ℕ) (p : Job → Bool) (g : Job → Job) (jobs : List Job) (j : Job)
    → find? p jobs ≡ some j
    → is_due t j ≡ true
    → is_due t (g j) ≡ false
    → due_count t (update p g jobs) + 1 ≡ due_count t jobs
due_less t p g [] j found due ended = cc
due_less t p g (r ∷ jobs) j found due ended = elim (Bool-cases (p r)) [
  | inl hit ↦
      (let same : r ≡ j = some_eq r j (ground (arith, hit, found)) in
        rw (hit, same, due, ended) refl)
  | inr miss ↦ ground (arith, miss, due_less t p g jobs j (ground (arith, miss, found)) due ended)
]

abbrev pub has_token : Job → Bool
has_token r = elim r.lease_token [ none ↦ false | some t ↦ true ]

-- What a tick writes to the job that it takes.
abbrev as_dead : Job → Job
as_dead r = record r { status = dead }

-- A job that waited is leased with one more attempt, or dead when its attempts are used up.
abbrev pub IsTakenRow : Env → Job → Job → Type 0
IsTakenRow env j row =
    ((row.status ≡ running)
      × (row.lease_until ≡ some (env.now + lease_seconds))
      × (has_token row ≡ true)
      × (row.attempts ≡ j.attempts + 1)
      × (leb env.max_job_attempts j.attempts ≡ false))
    ⊎ ((row.status ≡ dead) × (leb env.max_job_attempts j.attempts ≡ true))

pub taken-ended : (env : Env) (j row : Job) → IsTakenRow env j row → is_due env.now row ≡ false
unfolding is_due
taken-ended env j row (inl (runs, until, _, _, _)) = ground (arith, runs, until)
taken-ended env j row (inr (gone, _)) = ground (arith, gone)

-- The only job that was written is `j`.
pub record Wrote (env : Env) (j : Job) (before after : Db) : Type 0 where
  pub g : Job → Job
  pub wrote : after.jobs ≡ update (is_job j.id) g before.jobs
  pub taken : IsTakenRow env j (g j)
  pub same : (r : Job) → (g r).id ≡ r.id

-- A block returns in a state with `Q`.
abbrev pub Returns : {A : Type 0} → (Db → Type 0) → Result (A × Db) → Type 0
Returns Q (ok (a, after)) = Q after
Returns Q (err e) = ⊥

lease_job-Wrote :
    (env : Env) (j : Job) (db : Db)
    → leb env.max_job_attempts j.attempts ≡ false
    → Returns (Wrote env j db) (lease_job env j db)
unfolding lease_job fresh modify pure ◌>>=◌
lease_job-Wrote env j db left = record {
  g = _;
  wrote = refl;
  taken = inl (refl, refl, refl, refl, left);
  same = λ r. refl;
}

-- The review of a dead job queues nothing.
pub review-jobs :
    (env : Env) (i : ℕ) (db : Db)
    → Returns (λ after. after.jobs ≡ db.jobs) (review env job_dead_letter i db)
unfolding review gets fresh modify when on_some category_eq ◌>>=◌
review-jobs env i db = elim (Option-cases (find? (is_category job_dead_letter i) db.reviews)) [
  | inl missing ↦ rw missing refl
  | inr (row, found) ↦ elim (Bool-cases (is_resolved row.status)) [
    | inl closed ↦ rw (found, closed) refl
    | inr still ↦ rw (found, still) refl
  ]
]

after_review :
    (env : Env) (j : Job) (before : Db) (jobs : List Job) (r : Result (Unit {0} × Db))
    → leb env.max_job_attempts j.attempts ≡ true
    → jobs ≡ update (is_job j.id) as_dead before.jobs
    → Returns (λ after. after.jobs ≡ jobs) r
    → Returns (Wrote env j before) (elim r as (λ _. Result (Taken × Db)) [
      | ok (_, after) ↦ ok (buried, after)
      | err e ↦ err e
    ])
after_review env j before jobs (ok (_, after)) spent wrote kept = record {
  g = as_dead;
  wrote = kept ∙ wrote;
  taken = inr (refl, spent);
  same = λ r. refl;
}
after_review env j before jobs (err e) spent wrote kept = kept

exhaust_job-Wrote :
    (env : Env) (j : Job) (db : Db)
    → leb env.max_job_attempts j.attempts ≡ true
    → Returns (Wrote env j db) (exhaust_job env j db)
unfolding exhaust_job modify pure ◌>>=◌
exhaust_job-Wrote env j db spent =
    after_review env j db _ (review env job_dead_letter j.id _) spent refl (review-jobs env j.id _)

pub take_job-Wrote : (env : Env) (j : Job) (db : Db) → Returns (Wrote env j db) (take_job env j db)
unfolding take_job
take_job-Wrote env j db = elim (Bool-cases (leb env.max_job_attempts j.attempts)) [
  | inl spent ↦ rw spent (exhaust_job-Wrote env j db spent)
  | inr left ↦ rw left (lease_job-Wrote env j db left)
]
