-- ===== src/Worker/Fencing.antt =====
-- A lease that ran out and was given to another worker.
use saup.Base.{
  ℕ, ◌+◌, ◌<◌, ◌≡◌, refl, sym, ◌∙◌, ap, subst, Bool, true, false, Bool-cases, inl, inr, ◌==◌, any,
  find?, update, List, [], ◌∷◌, Option, none, some, Option-cases, arith,
}
use saup.Domain.Errors.{Result, ok}
use saup.Store.Db.{Db, Env}
use saup.Store.Rows.{Job, running}
use saup.Store.Monad.{M, pure, when, on_some, ◌>>=◌}
use saup.Store.Monad.Ensures.{
  Post, Ensures, Ensures-if, Ensures-bind, Ensures-after, Ensures-pure, Post-found, Post-fetch,
}
use saup.Store.Tables.{fetch}
use saup.Dispatch.Checks.{lock_treasury-reads}
use saup.Worker.{
  next_job, Lease, Taken, idle, buried, leased, take_job, lease_job, exhaust_job, take, owns,
  find_job, close_job, finish, lease_seconds,
}

next_job-in :
    (t : ℕ) (j : Job) (jobs : List Job)
    → next_job t jobs ≡ some j
    → any (λ (r : Job). r.id == j.id) jobs ≡ true
unfolding next_job
next_job-in t j [] h = cc
next_job-in t j (r ∷ jobs) h = elim (Option-cases (next_job t jobs)) [
  | inl missing ↦ ground (arith, missing, h)
  | inr (k, found) ↦ ground (arith, found, h, next_job-in t k jobs found)
]

-- The write of a new lease is found again under the job's identifier.
abbrev token_of : ℕ → List Job → Option ℕ
token_of i jobs = elim (find? (λ (r : Job). r.id == i) jobs) [
  | none ↦ none
  | some j ↦ j.lease_token
]

leased_row :
    (i until token : ℕ) (jobs : List Job)
    → any (λ (r : Job). r.id == i) jobs ≡ true
    → token_of i (
        update
          (λ (r : Job). r.id == i)
          (λ r. record r {
            status = running;
            lease_until = some until;
            lease_token = some token;
            attempts = r.attempts + 1;
          })
          jobs)
      ≡ some token
leased_row i until token [] h = cc
leased_row i until token (r ∷ jobs) h = elim (Bool-cases (r.id == i)) [
  | inl hit ↦ ground (arith, hit)
  | inr miss ↦
      let later : any (λ (r : Job). r.id == i) jobs ≡ true = ground (arith, miss, h) in
      ground (arith, miss, leased_row i until token jobs later)
]

-- What a lease says of the state in which it was given out.
abbrev Fresh : ℕ → Taken → Db → Type 0
Fresh n idle after = Unit
Fresh n buried after = Unit
Fresh n (leased l) after = (n < l.token) × (token_of l.job_id after.jobs ≡ some l.token)

module _ (env : Env) (n : ℕ) (j : Job) where
  -- The job is in the table, and `n` was given out.
  abbrev Known : Db → Type 0
  Known db = (n < db.next_id) × (any (λ (r : Job). r.id == j.id) db.jobs ≡ true)

  lease_job-Fresh : Ensures Known (Fresh n) (lease_job env j)
  unfolding lease_job ◌>>=◌
  lease_job-Fresh = record {
    at = λ db (old, there).
        (old, leased_row j.id (env.now + lease_seconds) db.next_id db.jobs there);
  }

  exhaust_job-Fresh : Ensures Known (Fresh n) (exhaust_job env j)
  unfolding exhaust_job
  exhaust_job-Fresh = Ensures-after _ _ λ _. Ensures-after _ _ λ _. Ensures-pure buried (λ db h. tt)

  take_job-Fresh : Ensures Known (Fresh n) (take_job env j)
  unfolding take_job
  take_job-Fresh = Ensures-if _ _ _ exhaust_job-Fresh lease_job-Fresh

take-Fresh : (env : Env) (n : ℕ) → Ensures (λ db. n < db.next_id) (Fresh n) (take env)
unfolding take pure on_some ◌>>=◌
take-Fresh env n = record {
  at = λ db old.
      Post-found (Fresh n) (next_job env.now db.jobs) (pure idle) (take_job env) db tt
        (λ j found. (take_job-Fresh env n j).at db (old, next_job-in env.now j db.jobs found));
}

-- A row that another lease holds is not the older lease's.
not_owned :
    (l m : Lease) (jobs : List Job) (j : Job)
    → l.token < m.token
    → token_of m.job_id jobs ≡ some m.token
    → m.job_id ≡ l.job_id
    → find? (λ (r : Job). r.id == l.job_id) jobs ≡ some j
    → owns l j ≡ false
not_owned l m jobs j newer holds same found =
    ground (arith, newer, ap (λ i. token_of i jobs) same, holds, found)

skipped :
    (b : Bool) (m : M (Unit {0})) (db later : Db)
    → b ≡ false
    → db ≡ later
    → Post (λ _ final. final ≡ later) (when b m db)
unfolding when
skipped true m db later h here = cc
skipped false m db later h here = here

stale_finish :
    (env : Env) (l : Lease) (outcome : Result (Unit {0})) (later : Db)
    → ((j : Job) → find_job l.job_id later ≡ some j → owns l j ≡ false)
    → Post (λ _ final. final ≡ later) (finish env l outcome later)
unfolding finish
stale_finish env l outcome later other =
    let rest : Ensures (λ db. db ≡ later) (λ _ final. final ≡ later)
        (fetch (find_job l.job_id) >>= λ j. when (owns l j) (close_job env j outcome)) =
      record {
        at = λ db here.
            Post-fetch (λ _ final. final ≡ later) (find_job l.job_id)
              (λ j. when (owns l j) (close_job env j outcome)) db
              (λ j found.
                skipped (owns l j) (close_job env j outcome) db later
                  (other j (sym (ap (find_job l.job_id) here) ∙ found)) here);
      } in
    (Ensures-bind _ _ lock_treasury-reads λ _. rest).at later refl

-- When a job's lease ran out and the job was leased again, the end of the first run changes nothing:
-- whatever its outcome was, neither the job nor anything else is written. The first lease's token had
-- been given out before.
pub newer_lease_owns :
    (env again : Env) (l m : Lease) (outcome : Result (Unit {0})) (db later after : Db)
    → l.token < db.next_id
    → take again db ≡ ok (leased m, later)
    → m.job_id ≡ l.job_id
    → finish env l outcome later ≡ ok (tt, after)
    → after ≡ later
newer_lease_owns env again l m outcome db later after older taken same ended =
    let (newer, holds) : Fresh l.token (leased m) later =
      subst (Post (Fresh l.token)) taken ((take-Fresh again l.token).at db older) in
    subst (Post (λ _ (final : Db). final ≡ later)) ended (
      stale_finish env l outcome later
        (λ j found. not_owned l m later.jobs j newer holds same found))
