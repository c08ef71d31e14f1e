-- ===== src/Worker.antt =====
-- apps/worker/main.py: the worker that takes jobs from the queue under a lease.
pub mod Earliest
pub mod Failures
pub mod Fencing
pub mod Progress
pub mod Taking
use saup.Base.{
  ℕ, zero, suc, ◌+◌, ◌-◌, ◌*◌, Bool, true, false, not, ◌&&◌, ◌||◌, ◌==◌, ltb, leb, min, Option,
  some, none, List, [], ◌∷◌, find?, if◌then◌else◌,
}
use saup.Domain.Errors.{
  Result, ok, err, Error, domain, integration, validation, unexpected, conflict, job_not_replayable,
  financial_or_order_replay_requires_reconciliation, unexpected_handler_error,
}
use saup.Store.Db.{Db, Env}
use saup.Store.Keys.{
  JobKind, JobPayload, listing_sync, marketplace_shipment, file_import, claim_submit,
  job_dead_letter,
}
use saup.Store.Rows.{
  Who, system, Job, JobStatus, job_pending, running, done, dead, job_failed, job_replay_requested,
}
use saup.Store.Monad.{
  M, pure, raise, gets, modify, fresh, on_some, when, raise_when, commit, ◌>>=◌, ◌>>◌,
}
use saup.Store.Tables.{fetch, update_job}
use saup.Application.Common.{audit, review, lock_treasury}

abbrev pub find_job : ℕ → Db → Option Job
find_job i db = find? (λ (j : Job). j.id == i) db.jobs

-- `lease_until < current`; NULL is not less.
abbrev expired : Option ℕ → ℕ → Bool
expired none current = false
expired (some t) current = ltb t current

unfoldable pub is_due : ℕ → Job → Bool
is_due current j = elim j.status [
  | job_pending ↦ leb j.next_run_at current
  | running ↦ expired j.lease_until current
  | done ↦ false
  | dead ↦ false
]

-- The due job with the least `next_run_at`; of two such, the one made first, which is later in the
-- list since rows are added at its head.
unfoldable pub next_job : ℕ → List Job → Option Job
unfolding is_due
next_job current [] = none
next_job current (j ∷ jobs) =
    let rest = next_job current jobs in
    if is_due current j
    then elim rest [
      | none ↦ some j
      | some k ↦ if ltb j.next_run_at k.next_run_at then some j else some k
    ]
    else rest

-- What the worker holds while it runs a job.
pub record Lease : Type 0 where
  pub job_id : ℕ
  pub token : ℕ
  pub kind : JobKind
  pub payload : JobPayload

-- What the first transaction of a tick finds: nothing to do, a job out of attempts, or a lease.
pub data Taken : Type 0 where
  idle buried : Taken
  leased : Lease → Taken

abbrev pub lease_seconds : ℕ
lease_seconds = 120

unfoldable pub exhaust_job : Env → Job → M Taken
exhaust_job env j = do
  update_job j.id (λ r. record r { status = dead })
  review env job_dead_letter j.id
  pure buried

unfoldable pub lease_job : Env → Job → M Taken
lease_job env j = do
  token ← fresh
  update_job j.id (λ r. record r {
    status = running;
    lease_until = some (env.now + lease_seconds);
    lease_token = some token;
    attempts = r.attempts + 1;
  })
  pure (leased (record { job_id = j.id; token = token; kind = j.kind; payload = j.payload }))

unfoldable pub take_job : Env → Job → M Taken
take_job env j = if leb env.max_job_attempts j.attempts then exhaust_job env j else lease_job env j

unfoldable pub take : Env → M Taken
take env = do row ← gets (λ db. next_job env.now db.jobs); on_some row (pure idle) (take_job env)

abbrev pub owns : Lease → Job → Bool
owns l j = elim j.lease_token [ none ↦ false | some t ↦ t == l.token ]

-- `2 ** n`
unfoldable pub power_of_two : ℕ → ℕ
power_of_two zero = 1
power_of_two (suc n) = 2 * power_of_two n

-- `isinstance(error, IntegrationError) and error.retryable and not error.uncertain`
unfoldable pub may_retry : Error → Bool
may_retry (integration code retryable uncertain) = retryable && not uncertain
may_retry e = false

-- Exceptions of other classes count as an integration error that is not retried.
unfoldable pub as_failure : Error → Error
as_failure validation = integration unexpected_handler_error false false
as_failure unexpected = integration unexpected_handler_error false false
as_failure e = e

unfoldable pub retry_job : Env → Job → M (Unit {0})
unfolding power_of_two
retry_job env j = update_job j.id (λ r. record r {
  status = job_pending;
  next_run_at = env.now + min 300 (power_of_two j.attempts);
  lease_until = none;
})

unfoldable pub bury_job : Env → Job → M (Unit {0})
bury_job env j = do
  update_job j.id (λ r. record r { status = dead; lease_until = none })
  review env job_dead_letter j.id

unfoldable pub close_job : Env → Job → Result (Unit {0}) → M (Unit {0})
unfolding may_retry as_failure
close_job env j (ok tt) = update_job j.id (λ r. record r { status = done; lease_until = none })
close_job env j (err e) = do
  if may_retry (as_failure e) && ltb j.attempts env.max_job_attempts
      then retry_job env j
      else bury_job env j
  audit job_failed j.id system

-- The last transaction of a tick. A newer lease owns the job's completion.
unfoldable pub finish : Env → Lease → Result (Unit {0}) → M (Unit {0})
finish env l outcome = do
  lock_treasury
  j ← fetch (find_job l.job_id)
  when (owns l j) (close_job env j outcome)

-- A handler runs its own transactions.
abbrev pub Handler : Type 0
Handler = JobKind → JobPayload → Db → Result (Unit {0}) × Db

-- One tick, without a crash: whether there was a job.
unfoldable pub tick : Env → Handler → Db → Result Bool × Db
tick env handler db =
    let (taken, mid) = commit (take env) db in
    elim taken [
      | err e ↦ (err e, mid)
      | ok idle ↦ (ok false, mid)
      | ok buried ↦ (ok true, mid)
      | ok (leased l) ↦
          let (outcome, after) = handler l.kind l.payload mid in
          commit (finish env l outcome >> pure true) after
    ]

-- `drain`; the limit is its fuel.
unfoldable pub drain : Env → Handler → ℕ → Db → Result ℕ × Db
drain env handler zero db = (ok 0, db)
drain env handler (suc limit) db =
    let (more, after) = tick env handler db in
    elim more [
      | err e ↦ (err e, after)
      | ok false ↦ (ok 0, after)
      | ok true ↦
          let (count, last) = drain env handler limit after in
          (elim count [ ok n ↦ ok (n + 1) | err e ↦ err e ], last)
    ]

abbrev is_dead : JobStatus → Bool
is_dead dead = true
is_dead _ = false

-- The kinds that neither move money nor change an order.
abbrev pub is_replayable : JobKind → Bool
is_replayable listing_sync = true
is_replayable marketplace_shipment = true
is_replayable file_import = true
is_replayable claim_submit = true
is_replayable _ = false

unfoldable pub replay : Env → ℕ → Who → M (Unit {0})
replay env i actor = do
  lock_treasury
  row ← gets (find_job i)
  on_some row (raise (conflict job_not_replayable)) (λ j. do
    raise_when (not (is_dead j.status)) (conflict job_not_replayable)
    raise_when (not (is_replayable j.kind))
        (conflict financial_or_order_replay_requires_reconciliation)
    update_job i (λ r. record r { status = job_pending; attempts = 0; next_run_at = env.now })
    audit job_replay_requested i actor)
