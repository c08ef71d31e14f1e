-- ===== src/Worker/Failures.antt =====
-- A run of a job that fails: the job waits for another run or is dead.
use saup.Base.{
  ℕ, zero, suc, ◌+◌, ◌<◌, ◌≤◌, ◌≡◌, refl, sym, ◌∙◌, ap, subst, Bool, true, false, ◌&&◌, ◌==◌, ltb,
  min, ◌⊎◌, inl, inr, Bool-cases, Option, some, none, find?, find-update, find-passes, update, List,
  arith,
}
use saup.Domain.Errors.{Result, ok, err, Error}
use saup.Store.Db.{Db, Env}
use saup.Store.Keys.{job_dead_letter}
use saup.Store.Rows.{Job, dead, job_pending}
use saup.Store.Monad.{modify, when, ◌>>=◌}
use saup.Store.Monad.Ensures.{Post, Post-map, Ensures, Ensures-bind, Post-fetch, Post-then}
use saup.Store.Tables.{fetch}
use saup.Application.Common.{review}
use saup.Dispatch.Checks.{lock_treasury-reads}
use saup.Worker.{
  Lease, owns, find_job, may_retry, as_failure, power_of_two, retry_job, bury_job, close_job,
  finish,
}
use saup.Worker.Earliest.{some_eq}
use saup.Worker.Taking.{Returns, review-jobs}

-- What a failed run leaves of the job `j`.
abbrev pub Waits : Env → Job → Type 0
Waits env row =
    (row.status ≡ job_pending) × (env.now < row.next_run_at) × (row.next_run_at ≤ env.now + 300)

abbrev pub retried : Env → Error → Job → Bool
retried env e j = may_retry (as_failure e) && ltb j.attempts env.max_job_attempts

abbrev pub IsAnswered : Env → Error → Job → Option Job → Type 0
IsAnswered env e j none = ⊥
IsAnswered env e j (some row) =
    (row.attempts ≡ j.attempts)
    × (row.lease_until ≡ none)
    × (((retried env e j ≡ true) × Waits env row)
        ⊎ ((retried env e j ≡ false) × (row.status ≡ dead)))

abbrev as_waiting : Env → Job → Job → Job
as_waiting env j r = record r {
  status = job_pending;
  next_run_at = env.now + min 300 (power_of_two j.attempts);
  lease_until = none;
}

abbrev as_buried : Job → Job
as_buried r = record r { status = dead; lease_until = none }

power_of_two-positive : (n : ℕ) → 0 < power_of_two n
unfolding power_of_two
power_of_two-positive zero = ground arith
power_of_two-positive (suc n) = ground (arith, power_of_two-positive n)

backoff :
    (now n : ℕ)
    → (now < now + min 300 (power_of_two n)) × (now + min 300 (power_of_two n) ≤ now + 300)
backoff now n = let positive = power_of_two-positive n in (ground arith, ground arith)

written :
    (env : Env) (e : Error) (j : Job) (g : Job → Job) (jobs jobs_2 : List Job) (i : ℕ)
    → jobs_2 ≡ update (λ (r : Job). r.id == i) g jobs
    → find? (λ (r : Job). r.id == i) jobs ≡ some j
    → ((r : Job) → (g r).id ≡ r.id)
    → IsAnswered env e j (some (g j))
    → IsAnswered env e j (find? (λ (r : Job). r.id == i) jobs_2)
written env e j g jobs jobs_2 i wrote found same h =
    subst (IsAnswered env e j)
      (sym (
        ap (find? (λ (r : Job). r.id == i)) wrote
        ∙ find-update (λ (r : Job). r.id == i) g jobs j (λ r. ap (λ k. k == i) (same r)) found))
      h

returned : {A : Type 0} (Q : Db → Type 0) (r : Result (A × Db)) → Returns Q r → Post (λ _. Q) r
returned Q (ok (a, after)) h = h
returned Q (err e) h = elim h [ ]

module _ (env : Env) (e : Error) (j : Job) where
  abbrev Answered : Db → Type 0
  Answered after = IsAnswered env e j (find_job j.id after)

  retry_job-Answered :
      (db : Db)
      → find_job j.id db ≡ some j
      → retried env e j ≡ true
      → Post (λ _. Answered) (retry_job env j db)
  unfolding retry_job modify
  retry_job-Answered db found more =
      written env e j (as_waiting env j) db.jobs _ j.id refl found (λ r. refl)
        (
          refl,
          refl,
          inl (more, (refl, (backoff env.now j.attempts).0, (backoff env.now j.attempts).1)),
        )

  bury_job-Answered :
      (db : Db)
      → find_job j.id db ≡ some j
      → retried env e j ≡ false
      → Post (λ _. Answered) (bury_job env j db)
  unfolding bury_job modify
  bury_job-Answered db found over =
      Post-then (λ _ (mid : Db). mid.jobs ≡ update (λ (r : Job). r.id == j.id) as_buried db.jobs)
        (λ _. Answered) _ _ db refl
        λ _ mid w.
          Post-map _ _ _
            (returned (λ here. here.jobs ≡ mid.jobs) (review env job_dead_letter j.id mid)
              (review-jobs env j.id mid))
            (λ _ after kept.
              written env e j as_buried db.jobs after.jobs j.id (kept ∙ w) found (λ r. refl)
                (refl, refl, inr (over, refl)))

  close_job-Answered :
      (db : Db) → find_job j.id db ≡ some j → Post (λ _. Answered) (close_job env j (err e) db)
  unfolding close_job modify
  close_job-Answered db found =
      Post-then (λ _. Answered) (λ _. Answered) _ _ db
        (elim (Bool-cases (retried env e j)) [
          | inl more ↦ rw more (retry_job-Answered db found more)
          | inr over ↦ rw over (bury_job-Answered db found over)
        ])
        (λ _ mid h. h)

-- When a run that still holds its job's lease fails, the job keeps its count of attempts and loses the
-- lease. If the error may be retried and attempts are left, the job waits for a time after now, at most
-- 300 seconds away; otherwise it is dead.
pub failed_run :
    (env : Env) (l : Lease) (e : Error) (j : Job) (db after : Db)
    → find_job l.job_id db ≡ some j
    → owns l j ≡ true
    → finish env l (err e) db ≡ ok (tt, after)
    → IsAnswered env e j (find_job l.job_id after)
unfolding finish when
failed_run env l e j db after found owned ended =
    let held : j.id ≡ l.job_id =
      (let passes = find-passes (λ (r : Job). r.id == l.job_id) db.jobs j found in
        ground (arith, passes)) in
    subst (λ i. IsAnswered env e j (find_job i after)) held
      (subst (Post (λ _. Answered env e j)) ended
        ((Ensures-bind _ _ lock_treasury-reads (rest held)).at db found))
  where
    rest :
        j.id ≡ l.job_id
        → (a : Unit {0})
        → Ensures
            (λ here. find_job l.job_id here ≡ some j)
            (λ _. Answered env e j)
            (fetch (find_job l.job_id) >>= λ r. when (owns l r) (close_job env r (err e)))
    rest held a = record {
      at = λ here found.
          Post-fetch _ (find_job l.job_id) (λ r. when (owns l r) (close_job env r (err e))) here
            (λ r again.
              subst
                (λ k. Post (λ _. Answered env e j) (when (owns l k) (close_job env k (err e)) here))
                (some_eq j r (sym found ∙ again))
                (rw owned
                  (close_job-Answered env e j here (ap (λ i. find_job i here) held ∙ found))));
    }
