-- ===== src/Application/SupplierOperations/Sending/Repeats.antt =====
-- What `mark_sent` of packages/application/supplier_operations.py answers to a batch that was reported
-- as sent.
use saup.Base.{
  ℕ, ◌≡◌, refl, sym, ap, ◌∙◌, subst, Bool, true, not, ◌||◌, ◌==◌, any, if◌then◌else◌, List, Option,
  none, some, find?, update, find-passes, find-update, arith,
}
use saup.Domain.Errors.{Error, ok, err, conflict, batch_not_sendable, supplier_send_conflict}
use saup.Domain.SupplierCommands.{MarkSent}
use saup.Domain.SupplierState.{Actor, require, operator}
use saup.Store.Db.{Db, Env}
use saup.Store.Keys.{AccountCode, account_eq, sending_document}
use saup.Store.Rows.{Account, Event, user}
use saup.Store.CaseRows.{Batch, BatchItem, BatchStatus}
use saup.Store.Monad.{
  M, pure, raise, gets, modify, lift, on_some, raise_when, for_each, ◌>>=◌, ◌>>◌,
}
use saup.Store.Monad.Keeps.{
  Keeps, Keeps-pure, Keeps-raise, Keeps-gets, Keeps-lift, Keeps-present, Keeps-catch, Keeps-on_some,
  Keeps-if, Keeps-raise_when, Keeps-when, Keeps-bind, Keeps-for_each, Keeps-collect,
}
use saup.Store.Monad.Ensures.{Post, Post-found, Post-lift, Post-passed, Post-keeps, Post-raise_when}
use saup.Store.Tables.{find_batch, update_batch}
use saup.Application.Common.{audit, lock_treasury}
use saup.Application.SupplierOperations.Terms.{supplier_transition, intervention}
use saup.Application.SupplierOperations.Cancel.{present_order}
use saup.Application.SupplierOperations.Batches.{present_line, present_batch, items_of}
use saup.Application.SupplierOperations.Sending.{is_sendable, send_line, send_batch, mark_sent}

abbrev has_control : List Account → Bool
has_control accounts = any (λ (a : Account). account_eq a.code AccountCode.control) accounts

abbrev is_batch : ℕ → Batch → Bool
is_batch i b = b.id == i

-- The batch was reported as sent, by a report with this hash.
record IsSent (i hash : ℕ) (db : Db) : Type 0 where
  ready : has_control db.accounts ≡ true
  batch : Batch
  found : find_batch i db ≡ some batch
  reported : batch.send_hash ≡ some hash

module _ {i hash : ℕ} where
  sent_elsewhere :
      (f : Db → Db)
      → ((db : Db) → (f db).accounts ≡ db.accounts)
      → ((db : Db) → (f db).batches ≡ db.batches)
      → Keeps (IsSent i hash) (modify f)
  unfolding modify
  sent_elsewhere f same kept = record {
    at = λ db h. record {
      ready = subst (λ accounts. has_control accounts ≡ true) (sym (same db)) h.ready;
      batch = h.batch;
      found = subst (λ batches. find? (is_batch i) batches ≡ some h.batch) (sym (kept db)) h.found;
      reported = h.reported;
    };
  }

ruleset sent_rules = (
  Keeps-pure, Keeps-raise, Keeps-gets, Keeps-lift, Keeps-present, Keeps-catch, Keeps-on_some,
  Keeps-if, Keeps-raise_when, Keeps-when, Keeps-bind, Keeps-for_each, Keeps-collect, sent_elsewhere,
  refl,
)

module _ {i hash : ℕ} where
  supplier_transition-IsSent :
      (so_id : ℕ) (target : _) (who : _)
      → Keeps (IsSent i hash) (supplier_transition so_id target who)
  unfolding supplier_transition
  supplier_transition-IsSent so_id target who = search sent_rules depth 16

  intervention-IsSent :
      (key : _) (who : _) (o : Option ℕ) → Keeps (IsSent i hash) (intervention key who o)
  unfolding intervention
  intervention-IsSent key who o = search sent_rules depth 16

  send_line-IsSent :
      (batch_id : ℕ) (actor : Actor) (item : BatchItem)
      → Keeps (IsSent i hash) (send_line batch_id actor item)
  unfolding send_line present_order present_line
  send_line-IsSent batch_id actor item =
      search (sent_rules, supplier_transition-IsSent, intervention-IsSent) depth 24

  written :
      (b : Batch) (g : Batch → Batch) (db : Db)
      → ((r : Batch) → (g r).id ≡ r.id)
      → (g b).send_hash ≡ some hash
      → has_control db.accounts ≡ true
      → find_batch i db ≡ some b
      → IsSent i hash (record db { batches = update (is_batch b.id) g db.batches })
  written b g db same reported ready found =
      let here : b.id ≡ i =
        (let passes = find-passes (is_batch i) db.batches b found in ground (arith, passes)) in
      record {
        ready = ready;
        batch = g b;
        found =
            subst (λ k. find? (is_batch i) (update (is_batch k) g db.batches) ≡ some (g b))
              (sym here)
              (find-update (is_batch i) g db.batches b (λ r. ap (λ k. k == i) (same r)) found);
        reported = reported;
      }

module _ {A B : Type 0} (Q : A → Db → Type 0) where
  Post-first :
      (o : Option B) (e : Error) (k : B → M A) (db : Db)
      → ((b : B) → o ≡ some b → Post Q (k b db))
      → Post Q ((on_some o (raise e) (λ b. pure b) >>= k) db)
  unfolding on_some raise pure ◌>>=◌
  Post-first none e k db h = tt
  Post-first (some b) e k db h = h b refl

module _ {A : Type 0} (Q : A → Db → Type 0) where
  Post-present_batch :
      (i : ℕ) (k : Batch → M A) (db : Db)
      → ((b : Batch) → find_batch i db ≡ some b → Post Q (k b db))
      → Post Q ((present_batch i >>= k) db)
  unfolding present_batch gets ◌>>=◌
  Post-present_batch i k db h = Post-first Q (find_batch i db) _ k db h

-- What follows the report.
abbrev send_lines : ℕ → Actor → M (Unit {0})
send_lines batch_id actor = do
  items ← gets (items_of batch_id)
  for_each items (send_line batch_id actor)
  audit Event.supplier_batch_sent batch_id (user actor.name)

rest-IsSent :
    (i hash batch_id : ℕ) (actor : Actor) → Keeps (IsSent i hash) (send_lines batch_id actor)
rest-IsSent i hash batch_id actor = search (sent_rules, send_line-IsSent) depth 16

-- What the first report writes to the batch.
abbrev as_sent : Env → MarkSent → Actor → Batch → Batch
as_sent env cmd actor b = record b {
  sent_at = some env.now;
  sent_by = some (user actor.name);
  send_hash = some (env.fingerprint (sending_document cmd));
  status = BatchStatus.sent;
}

send_batch-IsSent :
    (env : Env) (i : ℕ) (b : Batch) (cmd : MarkSent) (actor : Actor) (db : Db)
    → has_control db.accounts ≡ true
    → find_batch i db ≡ some b
    → Post (λ _. IsSent i (env.fingerprint (sending_document cmd))) (send_batch env b cmd actor db)
unfolding send_batch modify ◌>>=◌
send_batch-IsSent env i b cmd actor db ready found =
    Post-passed (λ (_ : Unit {0}). IsSent i (env.fingerprint (sending_document cmd)))
      (not (is_sendable b.status) || not (cmd.file_hash == b.file_hash))
      (conflict batch_not_sendable)
      (λ _. update_batch b.id (as_sent env cmd actor) >> send_lines b.id actor) db
      λ _.
        Post-keeps (IsSent i (env.fingerprint (sending_document cmd))) _ _
          (written b (as_sent env cmd actor) db (λ r. refl) refl ready found)
          (rest-IsSent i _ b.id actor)

-- The first report or an equal one leaves the batch reported.
mark_sent-IsSent :
    (env : Env) (i : ℕ) (cmd : MarkSent) (actor : Actor) (db : Db)
    → Post (λ _. IsSent i (env.fingerprint (sending_document cmd))) (mark_sent env i cmd actor db)
unfolding mark_sent lock_treasury gets ◌>>=◌
mark_sent-IsSent env i cmd actor db = Post-lift _ (require actor operator) _ db λ _.
    Post-passed _ (not (has_control db.accounts)) _ _ db λ closed.
      let ready : has_control db.accounts ≡ true = ground (arith, closed) in
      Post-present_batch _ i _ db λ b found.
        Post-found _ b.send_hash _ _ db (send_batch-IsSent env i b cmd actor db ready found)
          λ h there.
            Post-raise_when (λ _. IsSent i (env.fingerprint (sending_document cmd)))
              (not (h == env.fingerprint (sending_document cmd))) (conflict supplier_send_conflict)
              db
              λ same. record {
                ready = ready;
                batch = b;
                found = found;
                reported = there ∙ ap some (ground (arith, same));
              }

-- What a reported batch answers to another report.
answered :
    (env : Env) (i hash : ℕ) (cmd : MarkSent) (actor : Actor) (db : Db)
    → IsSent i hash db
    → require actor operator ≡ ok tt
    → mark_sent env i cmd actor db ≡ (
        if hash == env.fingerprint (sending_document cmd)
        then ok (tt, db)
        else err (conflict supplier_send_conflict))
unfolding mark_sent lock_treasury present_batch gets lift pure on_some raise_when ◌>>=◌
answered env i hash cmd actor db h may = ground (arith, may, h.ready, h.found, h.reported)

-- A batch that was reported as sent is not sent again, nor reported otherwise: the same report, by its
-- hash, changes nothing, and another one is a conflict, whoever of the operators makes it and whenever.
pub mark_sent_again :
    (env again : Env) (i : ℕ) (cmd other : MarkSent) (actor by : Actor) (db after : Db)
    → mark_sent env i cmd actor db ≡ ok (tt, after)
    → require by operator ≡ ok tt
    → mark_sent again i other by after ≡ (
        if env.fingerprint (sending_document cmd) == again.fingerprint (sending_document other)
        then ok (tt, after)
        else err (conflict supplier_send_conflict))
mark_sent_again env again i cmd other actor by db after sent may =
    answered again i (env.fingerprint (sending_document cmd)) other by after
      (subst (Post (λ _. IsSent i (env.fingerprint (sending_document cmd)))) sent
        (mark_sent-IsSent env i cmd actor db))
      may
