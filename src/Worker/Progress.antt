-- ===== src/Worker/Progress.antt =====
-- The progress of ticks: which jobs are due after one, and what became of each.
use saup.Base.{
  ℕ, zero, suc, ◌+◌, ◌≡◌, refl, sym, ap, ◌∙◌, subst, Bool, true, false, ◌==◌, any, repeats, List,
  [], ◌∷◌, some, Option-cases, Bool-cases, inl, inr, find?, update, find-update, none, Option, ◌⊎◌,
  ◌≤◌, arith,
}
use saup.Domain.Errors.{Result, ok, err}
use saup.Store.Db.{Db, Env}
use saup.Store.Rows.{Job}
use saup.Store.Monad.{M, gets, on_some, commit, ◌>>=◌}
use saup.Worker.{find_job, is_due, next_job, Taken, take_job, take}
use saup.Worker.Earliest.{next_job_earliest, some_eq, none_due}
use saup.Worker.Taking.{
  ids, due_count, is_job, taken_row, due_less, IsTakenRow, taken-ended, Wrote, Returns,
  take_job-Wrote,
}

none_counted : (t : ℕ) (jobs : List Job) → any (is_due t) jobs ≡ false → due_count t jobs ≡ 0
none_counted t [] h = refl
none_counted t (r ∷ jobs) h = ground (arith, h, none_counted t jobs)

ids-update :
    (p : Job → Bool) (g : Job → Job) (jobs : List Job)
    → ((r : Job) → (g r).id ≡ r.id)
    → ids (update p g jobs) ≡ ids jobs
ids-update p g [] same = refl
ids-update p g (r ∷ jobs) same = ground (arith, same r, ids-update p g jobs same)

-- What became of the job `j`: it stands as it was, or it was taken.
abbrev pub IsTaken : Env → Job → Option Job → Type 0
IsTaken env j none = ⊥
IsTaken env j (some row) = IsTakenRow env j row

abbrev Fate : Env → Job → Option Job → Type 0
Fate env j o = (o ≡ some j) ⊎ IsTaken env j o

update_elsewhere :
    (i k : ℕ) (g : Job → Job) (jobs : List Job)
    → ((r : Job) → (g r).id ≡ r.id)
    → (k == i) ≡ false
    → find? (is_job i) (update (is_job k) g jobs) ≡ find? (is_job i) jobs
update_elsewhere i k g [] same other = refl
update_elsewhere i k g (r ∷ jobs) same other =
    ground (arith, same r, other, update_elsewhere i k g jobs same other)

module _ (env : Env) (k : Job) (before after : Db) (w : Wrote env k before after) where
  -- The job that the tick took was still as it was.
  taken-Fate :
      (j : Job)
      → find? (is_job k.id) before.jobs ≡ some k
      → is_due env.now k ≡ true
      → Fate env j (find? (is_job k.id) before.jobs)
      → Fate env j (find? (is_job k.id) after.jobs)
  taken-Fate j found due fate =
      let written : find? (is_job k.id) after.jobs ≡ some (w.g k) =
        ap (find? (is_job k.id)) w.wrote
        ∙ find-update (is_job k.id) w.g before.jobs k (λ r. ap (λ i. i == k.id) (w.same r)) found in
      elim (subst (Fate env j) found fate) [
        | inl waits ↦ inr (
            subst (IsTaken env j) (sym written)
              (subst (λ q. IsTakenRow env q (w.g k)) (some_eq k j waits) w.taken))
        | inr earlier ↦ absurd (never (sym due ∙ taken-ended env j k earlier))
      ]
    where
      never : true ≡ false → ⊥
      never e = cc

  kept-Fate :
      (i : ℕ) (j : Job)
      → find? (is_job k.id) before.jobs ≡ some k
      → is_due env.now k ≡ true
      → Fate env j (find? (is_job i) before.jobs)
      → Fate env j (find? (is_job i) after.jobs)
  kept-Fate i j found due fate = elim (Bool-cases (k.id == i)) [
    | inl same ↦
        (let here : k.id ≡ i = ground (arith, same) in
          subst (λ n. Fate env j (find? (is_job n) after.jobs)) here
            (taken-Fate j found due
              (subst (λ n. Fate env j (find? (is_job n) before.jobs)) (sym here) fate)))
    | inr other ↦
        subst (Fate env j)
          (sym
            (ap (find? (is_job i)) w.wrote ∙ update_elsewhere i k.id w.g before.jobs w.same other))
          fate
  ]

-- One due job less, the identifiers as before, and what became of each job.
record IsShorter (env : Env) (before after : Db) : Type 0 where
  count : due_count env.now after.jobs + 1 ≡ due_count env.now before.jobs
  kept : ids after.jobs ≡ ids before.jobs
  fate :
      (i : ℕ) (j : Job)
      → Fate env j (find? (is_job i) before.jobs)
      → Fate env j (find? (is_job i) after.jobs)

Wrote-IsShorter :
    (env : Env) (j : Job) (before after : Db)
    → find? (is_job j.id) before.jobs ≡ some j
    → is_due env.now j ≡ true
    → Wrote env j before after
    → IsShorter env before after
Wrote-IsShorter env j before after found due w = record {
  count =
      ap (λ jobs. due_count env.now jobs + 1) w.wrote
      ∙ due_less env.now (is_job j.id) w.g before.jobs j found due
          (taken-ended env j (w.g j) w.taken);
  kept = ap ids w.wrote ∙ ids-update (is_job j.id) w.g before.jobs w.same;
  fate = λ i q before_fate. kept-Fate env j before after w i q found due before_fate;
}

committed : (Q : Db → Type 0) (m : M Taken) (db : Db) → Returns Q (m db) → Q (commit m db).1
unfolding commit
committed Q m db h = settled (m db) h
  where
    settled :
        (r : Result (Taken × Db))
        → Returns Q r
        → Q
            (elim r as (λ _. Result Taken × Db) [
              | ok (a, after) ↦ (ok a, after)
              | err e ↦ (err e, db)
            ]).1
    settled (ok (a, after)) h = h
    settled (err e) h = elim h [ ]

-- A tick that finds a due job takes one off.
take-IsShorter :
    (env : Env) (db : Db) (n : ℕ)
    → repeats (ids db.jobs) ≡ false
    → due_count env.now db.jobs ≡ suc n
    → IsShorter env db (commit (take env) db).1
unfolding take gets on_some ◌>>=◌
take-IsShorter env db n distinct some_due = elim (Option-cases (next_job env.now db.jobs)) [
  | inl missing ↦
      absurd
        (none_left (sym some_due ∙ none_counted env.now db.jobs (none_due env.now db.jobs missing)))
  | inr (j, found) ↦ committed (IsShorter env db) (take env) db (
      rw found (
        shorter j (taken_row env.now db.jobs j distinct found)
          ((next_job_earliest env.now db.jobs j found).0) (take_job env j db)
          (take_job-Wrote env j db)))
]
  where
    none_left : suc n ≡ 0 → ⊥
    none_left h = ground (arith, h)

    shorter :
        (j : Job)
        → find? (is_job j.id) db.jobs ≡ some j
        → is_due env.now j ≡ true
        → (r : Result (Taken × Db)) → Returns (Wrote env j db) r
        → Returns (IsShorter env db) r
    shorter j found due (ok (a, after)) w = Wrote-IsShorter env j db after found due w
    shorter j found due (err e) w = w

-- The first transactions of so many ticks, one after the other.
unfoldable pub takes : ℕ → Env → Db → Db
takes zero env db = db
takes (suc n) env db = takes n env (commit (take env) db).1

found_due :
    (t i : ℕ) (jobs : List Job) (j : Job)
    → find? (is_job i) jobs ≡ some j
    → is_due t j ≡ true
    → 1 ≤ due_count t jobs
found_due t i [] j found due = cc
found_due t i (r ∷ jobs) j found due = elim (Bool-cases (r.id == i)) [
  | inl hit ↦
      (let same : r ≡ j = some_eq r j (ground (arith, hit, found)) in rw (same, due) (ground arith))
  | inr miss ↦ ground (arith, found_due t i jobs j (ground (arith, miss, found)) due)
]

-- When no job is due any more, none stands as it was.
settled-Fate :
    (env : Env) (i : ℕ) (j : Job) (jobs : List Job)
    → is_due env.now j ≡ true
    → due_count env.now jobs ≡ 0
    → Fate env j (find? (is_job i) jobs)
    → IsTaken env j (find? (is_job i) jobs)
settled-Fate env i j jobs due nothing (inl waits) =
    absurd (ground (arith, found_due env.now i jobs j waits due, nothing))
settled-Fate env i j jobs due nothing (inr taken) = taken

takes-IsTaken :
    (n : ℕ) (env : Env) (db : Db) (i : ℕ) (j : Job)
    → is_due env.now j ≡ true
    → repeats (ids db.jobs) ≡ false
    → due_count env.now db.jobs ≡ n
    → Fate env j (find? (is_job i) db.jobs)
    → IsTaken env j (find? (is_job i) (takes n env db).jobs)
unfolding takes
takes-IsTaken zero env db i j due distinct nothing fate =
    settled-Fate env i j db.jobs due nothing fate
takes-IsTaken (suc n) env db i j due distinct some_due fate =
    let next = take-IsShorter env db n distinct some_due in
    takes-IsTaken n env (commit (take env) db).1 i j due (ap repeats next.kept ∙ distinct)
      (ground (arith, next.count, some_due)) (next.fate i j fate)

-- When as many ticks as there are due jobs begin at one time, each of these jobs is taken by one of
-- them, whatever their order, kinds and attempts: it is running under a lease of 120 seconds with a
-- token and one more attempt, or, when its attempts are used up, it is dead. None waits for ever behind
-- others. The runs of the jobs themselves are left out, and the jobs' identifiers are distinct.
pub due_jobs-IsTaken :
    (env : Env) (db : Db) (i : ℕ) (j : Job)
    → repeats (ids db.jobs) ≡ false
    → find_job i db ≡ some j
    → is_due env.now j ≡ true
    → IsTaken env j (find_job i (takes (due_count env.now db.jobs) env db))
due_jobs-IsTaken env db i j distinct found due =
    takes-IsTaken (due_count env.now db.jobs) env db i j due distinct refl (inl found)
