-- ===== src/Effects/Jobs.antt =====
-- The worker's own transactions.
use saup.Base.{ℕ}
use saup.Domain.Errors.{Result, ok, err}
use saup.Store.Db.{Db, Env}
use saup.Store.Rows.{Who, Job}
use saup.Store.Monad.Keeps.{Keeps}
use saup.Worker.{Lease}
use saup.Effects.{Effects, effect_rules, lock_treasury-keeps, review-keeps}
use saup.Worker.{
  exhaust_job, lease_job, take_job, take, retry_job, bury_job, close_job, finish, replay,
}

module _ {P : Db → Type 0} ⦃effects : Effects P⦄ where
  pub exhaust_job-keeps : (env : Env) (v : Job) → Keeps P (exhaust_job env v)
  unfolding exhaust_job
  exhaust_job-keeps env v = search (effect_rules, review-keeps) depth 24

  pub lease_job-keeps : (env : Env) (v : Job) → Keeps P (lease_job env v)
  unfolding lease_job
  lease_job-keeps env v = search (effect_rules) depth 24

  pub take_job-keeps : (env : Env) (v : Job) → Keeps P (take_job env v)
  unfolding take_job
  take_job-keeps env v = search (effect_rules, exhaust_job-keeps, lease_job-keeps) depth 24

  pub take-keeps : (env : Env) → Keeps P (take env)
  unfolding take
  take-keeps env = search (effect_rules, take_job-keeps) depth 24

  pub retry_job-keeps : (env : Env) (v : Job) → Keeps P (retry_job env v)
  unfolding retry_job
  retry_job-keeps env v = search (effect_rules) depth 24

  pub bury_job-keeps : (env : Env) (v : Job) → Keeps P (bury_job env v)
  unfolding bury_job
  bury_job-keeps env v = search (effect_rules, review-keeps) depth 24

  pub close_job-keeps :
      (env : Env) (v : Job) (v_2 : Result (Unit {0})) → Keeps P (close_job env v v_2)
  unfolding close_job
  close_job-keeps env v (ok tt) = search (effect_rules) depth 24
  close_job-keeps env v (err e) = search (effect_rules, retry_job-keeps, bury_job-keeps) depth 24

  pub finish-keeps : (env : Env) (v : Lease) (v_2 : Result (Unit {0})) → Keeps P (finish env v v_2)
  unfolding finish
  finish-keeps env v v_2 = search (effect_rules, lock_treasury-keeps, close_job-keeps) depth 24

  pub replay-keeps : (env : Env) (i : ℕ) (actor : Who) → Keeps P (replay env i actor)
  unfolding replay
  replay-keeps env i actor = search (effect_rules, lock_treasury-keeps) depth 24
