-- ===== src/Application/Common.antt =====
-- packages/application/common.py: the treasury's lock, the audit trail, reviews, the job queue and
-- idempotent commands. The texts and JSON values that a row only stores for people to read, such as
-- an audit's old and new values or a review's details, are left out.
pub mod Repeats
use saup.Base.{ℕ, Bool, true, false, none, ◌∷◌, find?, any, update, ◌==◌, ◌&&◌, ◌||◌, not, ltb}
use saup.Domain.Errors.{
  domain, conflict, database_not_initialized, idempotency_key_required, idempotency_conflict,
}
use saup.Store.Db.{Env}
use saup.Store.Keys.{
  AccountCode, account_eq, Category, category_eq, job_dead_letter, JobKind, job_kind_eq, JobKey,
  job_key_eq, JobPayload, notice_payload, notify_job, notification_send, job_document, Document,
}
use saup.Store.Rows.{
  Who, system, Account, Review, ReviewStatus, open_review, resolved, Job, job_pending, Event,
  review_reopened, Command,
}
use saup.Store.Monad.{M, pure, gets, modify, fresh, on_some, when, raise_when, ◌>>=◌, ◌>>◌}

-- The lock itself orders transactions: one runs after the other.
unfoldable pub lock_treasury : M (Unit {0})
lock_treasury = do
  found ← gets (λ db. any (λ (a : Account). account_eq a.code AccountCode.control) db.accounts)
  raise_when (not found) (domain database_not_initialized 503)

abbrev pub audit : Event → ℕ → Who → M (Unit {0})
audit event entity_id actor = modify (λ db. record db {
  audits = record { event = event; entity_id = entity_id; actor = actor } ∷ db.audits;
})

-- A key that is used again must come with the same kind and payload.
unfoldable pub enqueue : Env → JobKind → JobKey → JobPayload → ℕ → M (Unit {0})
enqueue env kind key payload at = do
  existing ← gets (λ db. find? (λ (j : Job). job_key_eq j.business_key key) db.jobs)
  on_some existing
      (do
        i ← fresh
        modify (λ db. record db {
          jobs =
              record {
                id = i;
                business_key = key;
                kind = kind;
                payload = payload;
                status = job_pending;
                attempts = 0;
                next_run_at = at;
                lease_until = none;
                lease_token = none;
              }
              ∷ db.jobs;
        }))
      (λ j.
        raise_when
          (not (job_kind_eq j.kind kind)
            || not (
                env.fingerprint (job_document j.payload) == env.fingerprint (job_document payload)))
          (conflict idempotency_conflict))

abbrev pub is_category : Category → ℕ → Review → Bool
is_category category entity_id r = category_eq r.category category && r.entity_id == entity_id

abbrev pub is_resolved : ReviewStatus → Bool
is_resolved resolved = true
is_resolved open_review = false

-- A review is opened once for its key; a resolved one is opened again.
unfoldable pub review : Env → Category → ℕ → M (Unit {0})
unfolding enqueue
review env category entity_id = do
  row ← gets (λ db. find? (is_category category entity_id) db.reviews)
  on_some row
      (do
        i ← fresh
        modify (λ db. record db {
          reviews =
              record {
                id = i;
                category = category;
                entity_id = entity_id;
                status = open_review;
                resolved_by = none;
              }
              ∷ db.reviews;
        })
        when (not (category_eq category job_dead_letter)) (
            enqueue env notification_send (notify_job i) (notice_payload category entity_id i)
              env.now))
      (λ r. do
        when (is_resolved r.status) (audit review_reopened r.id system)
        modify (λ db. record db {
          reviews =
              update (is_category category entity_id)
                (λ r. record r { status = open_review; resolved_by = none }) db.reviews;
        }))

-- `execute_command`: the action runs once for its scope and key, and a repeat gives its result.
-- `key_length` is `len(key)`; the key itself is a number.
unfoldable pub execute_command : Env → ℕ → ℕ → ℕ → Document → M ℕ → M ℕ
execute_command env scope key key_length payload action = do
  raise_when (key_length == 0 || ltb 160 key_length) (domain idempotency_key_required 422)
  existing ← gets (λ db. find? (λ (c : Command). c.scope == scope && c.key == key) db.commands)
  on_some existing
      (do
        result ← action
        modify (λ db. record db {
          commands =
              record {
                scope = scope;
                key = key;
                payload_hash = env.fingerprint payload;
                result = result;
              }
              ∷ db.commands;
        })
        pure result)
      (λ c. do
        raise_when (not (c.payload_hash == env.fingerprint payload)) (conflict idempotency_conflict)
        pure c.result)
