-- ===== src/Dispatch/Payments.antt =====
-- The operations that move a payment forward leave the payments that are gone as they are.
use saup.Base.{
  ℕ, ◌≡◌, refl, true, false, Bool-cases, inl, inr, ◌==◌, List, [], ◌∷◌, find?, some, arith,
}
use saup.Domain.Errors.{Error}
use saup.Store.Db.{Env}
use saup.Store.Rows.{Payment, PaymentStatus, Who}
use saup.Store.Monad.{M, raise, ◌>>=◌}
use saup.Store.Monad.Keeps.{
  Keeps, Keeps-bind, Keeps-after, Keeps-if, Keeps-pure, Outcome-after, Outcome-fetch, Outcome-gets,
  Outcome-found,
}
use saup.Store.Tables.{fetch, find_payment}
use saup.Application.Commerce.Payments.{
  release_payment, approve_payment, send_payment, refuse_payment, dispatch_by, dispatch,
}
use saup.Dispatch.{gone_in, Gone, Gone-other, gone_rules}
use saup.Dispatch.Kept.{gone_effects}
use saup.Application.SupplierOperations.Batches.{insert_item}
use saup.Effects.Batches.{create_batch-free}
use saup.Effects.{Sends, is_gone, effects_quiet, lock_treasury-keeps, enqueue-keeps, review-keeps}
use saup.Effects.Suppliers.{intervention-keeps, resolve_reviews-keeps}
use saup.Effects.Orders.{hold-keeps, payable_batch-keeps, check_dispatch-keeps}

-- What a row tells that was looked up: if it is the payment, it is gone.
abbrev pub Knows : ℕ → Payment → Type 0
Knows n p = (p.id == n) ≡ true → is_gone p.status ≡ true

pub found_id :
    (j : ℕ) (p : Payment) (payments : List Payment)
    → find? (λ (r : Payment). r.id == j) payments ≡ some p
    → p.id ≡ j
found_id j p [] found = cc
found_id j p (r ∷ payments) found = elim (Bool-cases (r.id == j)) [
  | inl hit ↦ ground (arith, hit, found)
  | inr miss ↦ found_id j p payments (ground (arith, miss, found))
]

pub looked_up :
    (n j : ℕ) (p : Payment) (payments : List Payment)
    → gone_in n payments ≡ true
    → find? (λ (r : Payment). r.id == j) payments ≡ some p
    → Knows n p
looked_up n j p [] h found same = cc
looked_up n j p (r ∷ payments) h found same = elim (Bool-cases (r.id == j)) [
  | inl hit ↦ ground (arith, hit, found, h, same)
  | inr miss ↦
      let later : find? (λ (r : Payment). r.id == j) payments ≡ some p =
        ground (arith, miss, found) in
      let p_is_j : p.id ≡ j = found_id j p payments later in
      looked_up n j p payments (ground (arith, miss, h, same, p_is_j)) later same
]

-- Such a row is another payment when its status is one from which money may be sent.
another : (n : ℕ) (p : Payment) → Knows n p → is_gone p.status ≡ false → (p.id == n) ≡ false
another n p knows open_status = elim (Bool-cases (p.id == n)) [
  | inl same ↦ ground (arith, knows same)
  | inr differs ↦ differs
]

module _ {n : ℕ} where
  fetched :
      {A : Type 0} (j : ℕ) (k : Payment → M A)
      → ((p : Payment) → Knows n p → Keeps (Gone n) (k p))
      → Keeps (Gone n) (fetch (find_payment j) >>= k)
  fetched j k keeps = record {
    at = λ db h.
        Outcome-fetch (Gone n) (find_payment j) k db
          (λ p found. (keeps p (looked_up n j p db.payments h.gone found)).at db h);
  }

  release_payment-Gone :
      (env : Env) (p : Payment) (who : Who) → Knows n p → Keeps (Gone n) (release_payment env p who)
  unfolding release_payment
  release_payment-Gone env p who knows = Keeps-after _ _ _ λ waits.
      let differs : (p.id == n) ≡ false = another n p knows (ground (arith, waits)) in
      search
        (
          gone_rules, Gone-other, enqueue-keeps, payable_batch-keeps, intervention-keeps,
          resolve_reviews-keeps,
        )
        depth 24

  send_payment-Gone :
      (env : Env) (p : Payment) → (p.id == n) ≡ false → Keeps (Gone n) (send_payment env p)
  unfolding send_payment
  send_payment-Gone env p differs = search (gone_rules, Gone-other, review-keeps) depth 24

  refuse_payment-Gone :
      (env : Env) (p : Payment) (e : Error)
      → (p.id == n) ≡ false
      → Keeps (Gone n) (refuse_payment env p e)
  unfolding refuse_payment
  refuse_payment-Gone env p e differs = search (gone_rules, Gone-other, hold-keeps) depth 24

  dispatch_by-Gone :
      (status : PaymentStatus) (env : Env) (p : Payment)
      → p.status ≡ status
      → Knows n p
      → Keeps (Gone n) (dispatch_by status env p)
  unfolding dispatch_by
  dispatch_by-Gone PaymentStatus.sending env p is knows = search (gone_rules, review-keeps) depth 16
  dispatch_by-Gone PaymentStatus.pending env p is knows =
      let differs : (p.id == n) ≡ false = another n p knows (ground (arith, is)) in
      search (gone_rules, check_dispatch-keeps, send_payment-Gone, refuse_payment-Gone) depth 24
  dispatch_by-Gone PaymentStatus.evidence_pending env p is knows = search gone_rules
  dispatch_by-Gone PaymentStatus.manual_approval env p is knows = search gone_rules
  dispatch_by-Gone PaymentStatus.unknown env p is knows = search gone_rules
  dispatch_by-Gone PaymentStatus.succeeded env p is knows = search gone_rules
  dispatch_by-Gone PaymentStatus.cancelled env p is knows = search gone_rules

  pub dispatch-Gone : (env : Env) (i : ℕ) → Keeps (Gone n) (dispatch env i)
  unfolding dispatch
  dispatch-Gone env i = Keeps-bind _ _ lock_treasury-keeps (λ _.
      fetched i (λ p. dispatch_by p.status env p)
        (λ p knows. dispatch_by-Gone p.status env p refl knows))

  pub approve_payment-Gone :
      (env : Env) (i amount destination : ℕ) (who : Who)
      → Keeps (Gone n) (approve_payment env i amount destination who)
  unfolding approve_payment raise
  approve_payment-Gone env i amount destination who = Keeps-bind _ _ lock_treasury-keeps (λ _.
      record {
        at = λ db h. Outcome-gets (Gone n) _ _ db (
            Outcome-found (Gone n) (find_payment i db) _ _ db (λ missing. tt)
              (λ p found. Outcome-after (Gone n) _ _ _ db λ matches.
                (Keeps-if _ _ _ (Keeps-pure tt)
                    (release_payment-Gone env p who (looked_up n i p db.payments h.gone found))).at
                  db h));
      })

  pub gone_sends : Sends (Gone n)
  unfolding insert_item
  gone_sends = record {
    approve = approve_payment-Gone;
    send = dispatch-Gone;
    batch =
        create_batch-free (λ batch_id supplier_id so_id snapshot_hash. search gone_rules depth 16);
  }
