-- ===== src/Dispatch/Once.antt =====
-- Before and after the provider is called.
use saup.Base.{
  ℕ, ◌<◌, ◌≡◌, refl, subst, Bool, true, false, Bool-cases, inl, inr, ◌==◌, any, find?, update, List,
  [], ◌∷◌, some, arith,
}
use saup.Domain.Errors.{Error}
use saup.Store.Db.{Db, Env}
use saup.Store.Rows.{Payment, PaymentStatus}
use saup.Store.Monad.{pure, ◌>>=◌, ◌>>◌}
use saup.Store.Monad.Keeps.{keeps_rules}
use saup.Store.Monad.Ensures.{
  Post, Ensures, Ensures-bind, Ensures-if, Ensures-on_some, Ensures-raise, SaysFalse, false_rules,
  of_false, Post-fetch,
}
use saup.Store.Tables.{find_payment, update_payment}
use saup.Application.Commerce.Payments.{send_payment, refuse_payment, dispatch_by, dispatch}
use saup.Dispatch.{is_gone, gone_in, Gone}
use saup.Dispatch.Checks.{lock_treasury-reads, check_dispatch-reads}
use saup.Dispatch.Payments.{found_id, looked_up}

-- The payment is in the table.
record There (n : ℕ) (db : Db) : Type 0 where
  pub old : n < db.next_id
  pub there : any (λ (r : Payment). r.id == n) db.payments ≡ true

ruleset sends_rules =
    (Ensures-bind, Ensures-if, Ensures-on_some, Ensures-raise, of_false, false_rules, keeps_rules)

abbrev is_pending : PaymentStatus → Bool
is_pending PaymentStatus.pending = true
is_pending _ = false

abbrev Sends : ℕ → Bool → Db → Type 0
Sends n b after = b ≡ true → Gone n after

marked :
    (n at : ℕ) (payments : List Payment)
    → any (λ (r : Payment). r.id == n) payments ≡ true
    → gone_in n (
        update
          (λ (r : Payment). r.id == n)
          (λ r. record r { status = PaymentStatus.sending; dispatched_at = some at })
          payments)
      ≡ true
marked n at [] h = cc
marked n at (p ∷ payments) h = elim (Bool-cases (p.id == n)) [
  | inl hit ↦ ground (arith, hit)
  | inr miss ↦
      let later : any (λ (r : Payment). r.id == n) payments ≡ true = ground (arith, miss, h) in
      ground (arith, miss, marked n at payments later)
]

module _ (env : Env) (p : Payment) where
  mark_sending : Ensures (There p.id) (Sends p.id) (
      update_payment p.id
        (λ r. record r { status = PaymentStatus.sending; dispatched_at = some env.now })
      >> pure true)
  unfolding ◌>>=◌
  mark_sending = record {
    at = λ db h. λ answer. record { old = h.old; gone = marked p.id env.now db.payments h.there };
  }

  send_payment-Sends : Ensures (There p.id) (Sends p.id) (send_payment env p)
  unfolding send_payment
  send_payment-Sends = search (sends_rules, mark_sending) depth 16

  refuse_payment-Sends : (e : Error) → Ensures (There p.id) (Sends p.id) (refuse_payment env p e)
  unfolding refuse_payment
  refuse_payment-Sends e = search sends_rules depth 16

  pending-Sends : Ensures (There p.id) (Sends p.id) (dispatch_by PaymentStatus.pending env p)
  unfolding dispatch_by
  pending-Sends =
      search (sends_rules, check_dispatch-reads, send_payment-Sends, refuse_payment-Sends) depth 16

  resting-false :
      (status : PaymentStatus) → is_pending status ≡ false → SaysFalse (dispatch_by status env p)
  unfolding dispatch_by
  resting-false PaymentStatus.pending rests = cc
  resting-false PaymentStatus.evidence_pending rests = search false_rules
  resting-false PaymentStatus.manual_approval rests = search false_rules
  resting-false PaymentStatus.sending rests = search false_rules
  resting-false PaymentStatus.unknown rests = search false_rules
  resting-false PaymentStatus.succeeded rests = search false_rules
  resting-false PaymentStatus.cancelled rests = search false_rules

  dispatch_by-Sends :
      (status : PaymentStatus) → Ensures (There p.id) (Sends p.id) (dispatch_by status env p)
  dispatch_by-Sends PaymentStatus.pending = pending-Sends
  dispatch_by-Sends PaymentStatus.evidence_pending =
      of_false _ _ (resting-false PaymentStatus.evidence_pending refl)
  dispatch_by-Sends PaymentStatus.manual_approval =
      of_false _ _ (resting-false PaymentStatus.manual_approval refl)
  dispatch_by-Sends PaymentStatus.sending = of_false _ _ (resting-false PaymentStatus.sending refl)
  dispatch_by-Sends PaymentStatus.unknown = of_false _ _ (resting-false PaymentStatus.unknown refl)
  dispatch_by-Sends PaymentStatus.succeeded =
      of_false _ _ (resting-false PaymentStatus.succeeded refl)
  dispatch_by-Sends PaymentStatus.cancelled =
      of_false _ _ (resting-false PaymentStatus.cancelled refl)

in_table :
    (n : ℕ) (p : Payment) (payments : List Payment)
    → find? (λ (r : Payment). r.id == n) payments ≡ some p
    → any (λ (r : Payment). r.id == n) payments ≡ true
in_table n p [] found = cc
in_table n p (r ∷ payments) found = elim (Bool-cases (r.id == n)) [
  | inl hit ↦ ground (arith, hit)
  | inr miss ↦
      let later : find? (λ (r : Payment). r.id == n) payments ≡ some p =
        ground (arith, miss, found) in
      ground (arith, miss, in_table n p payments later)
]

pub dispatch-Sends :
    (env : Env) (i : ℕ)
    → Ensures (λ db. i < db.next_id) (λ b after. b ≡ true → Gone i after) (dispatch env i)
unfolding dispatch
dispatch-Sends env i = Ensures-bind _ _ lock_treasury-reads λ _. record {
  at = λ db old.
      Post-fetch (Sends i) (find_payment i) (λ p. dispatch_by p.status env p) db
        (λ p found.
          subst (λ j. Post (Sends j) (dispatch_by p.status env p db))
            (found_id i p db.payments found)
            ((dispatch_by-Sends env p p.status).at db (record {
              old = rw (found_id i p db.payments found) old;
              there = rw (found_id i p db.payments found) (in_table i p db.payments found);
            })));
}

-- A payment that is gone is not sent.
gone-rests : (s : PaymentStatus) → is_gone s ≡ true → is_pending s ≡ false
gone-rests s h = ground arith

pub dispatch-rests : (env : Env) (i : ℕ) → Ensures (Gone i) (λ b after. b ≡ false) (dispatch env i)
unfolding dispatch
dispatch-rests env i = Ensures-bind _ _ lock_treasury-reads λ _. record {
  at = λ db h.
      Post-fetch (λ b after. b ≡ false) (find_payment i) (λ p. dispatch_by p.status env p) db
        (λ p found.
          (resting-false env p p.status (
              gone-rests p.status (
                looked_up i i p db.payments h.gone found
                  (ground (arith, found_id i p db.payments found))))).at
            db tt);
}
