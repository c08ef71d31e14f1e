-- ===== src/Tests/Worker.antt =====
-- A job that a second worker took over, and two jobs that wait.
use saup.Base.{◌≡◌, refl, arith, [], ◌∷◌, some, none, true, false, any}
use saup.Domain.Errors.{ok, err, Error, integration, unexpected_handler_error}
use saup.Store.Db.{Db}
use saup.Store.Keys.{account_eq, JobKey, JobKind, JobPayload, payment_execute}
use saup.Store.Rows.{Job, running, job_pending}
use saup.Store.Monad.{commit, when, ◌>>=◌}
use saup.Application.Common.{lock_treasury}
use saup.Worker.{
  Lease, leased, take, take_job, lease_job, next_job, is_due, finish, find_job, close_job,
  retry_job, may_retry, as_failure,
}
use saup.Worker.Failures.{IsAnswered, failed_run}
use saup.Worker.Earliest.{is_earlier, next_job_earliest}
use saup.Worker.Taking.{due_count}
use saup.Worker.Progress.{IsTaken, takes, due_jobs-IsTaken}
use saup.Worker.Fencing.{newer_lease_owns}
use saup.Tests.Shop.{env, shop}

abbrev interrupted : Job
interrupted = record {
  id = 20;
  business_key = JobKey.payment_job 11;
  kind = payment_execute;
  payload = JobPayload.by_id 12;
  status = running;
  attempts = 1;
  next_run_at = 0;
  lease_until = some 500;
  lease_token = some 30;
}

-- The first worker's lease, whose time ran out.
abbrev first : Lease
first = record { job_id = 20; token = 30; kind = payment_execute; payload = JobPayload.by_id 12 }

abbrev queued : Db
queued = record shop { jobs = interrupted ∷ [] }

abbrev second : Lease
second = record { job_id = 20; token = 100; kind = payment_execute; payload = JobPayload.by_id 12 }

abbrev taken : Db
taken = (commit (take env) queued).1

taken_lem : take env queued ≡ ok (leased second, taken)
unfolding commit take take_job lease_job next_job ◌>>=◌
taken_lem = refl

ended_lem : finish env first (ok tt) taken ≡ ok (tt, taken)
unfolding commit take take_job lease_job next_job finish lock_treasury account_eq ◌>>=◌
ended_lem = refl

newer_lease_owns_example : taken ≡ taken
newer_lease_owns_example =
    newer_lease_owns env env first second (ok tt) queued taken taken (ground arith) taken_lem refl
      ended_lem

abbrev waiting : Job
waiting = record {
  id = 21;
  business_key = JobKey.order_job 10;
  kind = JobKind.order_process;
  payload = JobPayload.by_id 10;
  status = job_pending;
  attempts = 0;
  next_run_at = 400;
  lease_until = none;
  lease_token = none;
}

next_job_earliest_example :
    (is_due 1000 waiting ≡ true)
    × (any (is_earlier 1000 400) (record waiting { id = 22; next_run_at = 700 } ∷ waiting ∷ [])
        ≡ false)
unfolding next_job is_due
next_job_earliest_example =
    next_job_earliest 1000 (record waiting { id = 22; next_run_at = 700 } ∷ waiting ∷ []) waiting
      refl

-- Two jobs wait, one of which has used up its attempts.
abbrev busy : Db
busy = record shop {
  jobs = record waiting { id = 22; next_run_at = 700; attempts = 5 } ∷ waiting ∷ [];
}

due_jobs-IsTaken_example :
    IsTaken env waiting (find_job 21 (takes (due_count env.now busy.jobs) env busy))
unfolding is_due
due_jobs-IsTaken_example = due_jobs-IsTaken env busy 21 waiting refl refl refl

-- The first worker's call of the provider timed out while its lease was still its own.
abbrev timeout : Error
timeout = integration unexpected_handler_error true false

abbrev retried_later : Db
retried_later = (commit (finish env first (err timeout)) queued).1

retried_later_lem : finish env first (err timeout) queued ≡ ok (tt, retried_later)
unfolding commit finish close_job lock_treasury account_eq when retry_job may_retry as_failure ◌>>=◌
retried_later_lem = refl

failed_run_example : IsAnswered env timeout interrupted (find_job 20 retried_later)
failed_run_example =
    failed_run env first timeout interrupted queued retried_later refl refl retried_later_lem
