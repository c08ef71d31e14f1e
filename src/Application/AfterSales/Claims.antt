-- ===== src/Application/AfterSales/Claims.antt =====
-- `open_claim`, `submit_claim`, `supplier_response` and `confirm_supplier_recovery` of
-- after_sales.py. A set of pictures has one flag for each member of `EVIDENCE`.
use saup.Base.{
  ℕ, ◌+◌, ◌*◌, ◌-◌, Bool, true, false, not, ◌&&◌, ◌||◌, ◌==◌, ltb, Option, some, none, [], ◌∷◌,
  find?, any, sum_where, if◌then◌else◌, ℤ, pos, neg, eqb,
}
use saup.Domain.Errors.{
  domain, conflict, invalid_claim, invalid_evidence_reference, idempotency_conflict,
  claim_requires_delivery, post_settlement_claim_requires_manual_reconciliation,
  refund_exceeds_sale, claim_not_found, supplier_response_conflict, claim_not_submitted,
  invalid_supplier_recovery, confirmed_receipt_required, recovery_conflict,
  recovery_exceeds_accepted, recovery_exceeds_supplier_payment,
}
use saup.Domain.Pricing.{krw}
use saup.Store.Db.{Db, Env}
use saup.Store.Keys.{
  claim_submit, claim_job, by_id, ambiguous_claim, claim_evidence_required, supplier_rejected_claim,
  recovery_key, supplier_recovery_received, deposit, supplier_recovery,
}
use saup.Store.Rows.{
  Who, system, Order, Payment, claim_opened, supplier_claim_submitted, supplier_claim_response,
  supplier_recovery_confirmed,
}
use saup.Store.CaseRows.{
  Claim, ClaimCategory, rotten, broken, bruised, missing_weight, change_of_mind, taste_complaint,
  other_claim, unlisted, ClaimStatus, ready, manual_review, evidence_required, supplier_review,
  refund_eligible, Evidence, Response, accepted_response, rejected_response, Settlement,
  InterventionKey, CancellationRecovery,
}
use saup.Store.Monad.{
  M, pure, raise, gets, lift, modify, fresh, on_some, when, raise_when, ◌>>=◌, ◌>>◌,
}
use saup.Store.Tables.{fetch, find_order, find_claim, update_claim}
use saup.Application.Common.{audit, review, enqueue, lock_treasury}
use saup.Application.Finance.Ledger.{post}
use saup.Application.Finance.Treasury.{is_succeeded}
use saup.Application.OrderRules.{context}
use saup.Application.SupplierOperations.Terms.{intervention}

ClaimCategory-discrete : Discrete ClaimCategory
ClaimCategory-discrete = hlevel

unfoldable pub category_same : ClaimCategory → ClaimCategory → Bool
unfolding ClaimCategory-discrete
category_same = eqb ClaimCategory-discrete

abbrev is_listed : ClaimCategory → Bool
is_listed unlisted = false
is_listed _ = true

-- `category in QUALITY`
abbrev is_quality : ClaimCategory → Bool
is_quality rotten = true
is_quality broken = true
is_quality bruised = true
is_quality missing_weight = true
is_quality _ = false

abbrev needs_person : ClaimCategory → Bool
needs_person taste_complaint = true
needs_person other_claim = true
needs_person change_of_mind = true
needs_person _ = false

-- `EVIDENCE.issubset(evidence)`
abbrev is_complete : Evidence → Bool
is_complete e = e.parcel_label && e.entire_contents && e.damage_closeup

abbrev flag_eq : Bool → Bool → Bool
flag_eq true b = b
flag_eq false b = not b

abbrev same_evidence : Evidence → Evidence → Bool
same_evidence a b =
    flag_eq a.parcel_label b.parcel_label
    && flag_eq a.entire_contents b.entire_contents
    && flag_eq a.damage_closeup b.damage_closeup

abbrev first_state : Env → ℕ → ClaimCategory → Evidence → ClaimStatus
first_state env deadline category evidence =
    if ltb deadline env.now || needs_person category
    then manual_review
    else if is_quality category && not (is_complete evidence)
    then evidence_required
    else ready

-- A claim that waits for a person or for pictures opens a review; an operator's claim that is ready
-- waits for the supplier's answer.
unfoldable pub announce_claim : Env → ℕ → ClaimStatus → Bool → M (Unit {0})
announce_claim env i ready operational =
    when (not operational) (enqueue env claim_submit (claim_job i) (by_id i) env.now)
announce_claim env i manual_review operational = review env ambiguous_claim i
announce_claim env i _ operational = review env claim_evidence_required i

unfoldable pub new_claim : Env → ℕ → ℕ → ClaimCategory → ℕ → Evidence → Who → Bool → ℕ → Order → M ℕ
new_claim env order_id external_id category amount evidence actor operational at order = do
  closed ← gets (λ db. any (λ (r : Settlement). r.order_id == order_id) db.settlements)
  raise_when closed (conflict post_settlement_claim_requires_manual_reconciliation)
  raise_when (ltb (order.gross_sale - order.discount) amount) (conflict refund_exceeds_sale)
  c ← context order
  let deadline = at + c.supplier.claim_days * 86400
  let state = first_state env deadline category evidence
  i ← fresh
  modify (λ db. record db {
    claims =
        record {
          id = i;
          order_id = order_id;
          external_id = external_id;
          category = category;
          status = state;
          evidence = evidence;
          deadline = deadline;
          requested_amount = amount;
          supplier_response = none;
          supplier_accepted_amount = 0;
          supplier_recovery = 0;
          customer_refund = 0;
        }
        ∷ db.claims;
  })
  audit claim_opened i actor
  announce_claim env i state operational
  pure i

abbrev delivery_of : Option Order → Option ℕ
delivery_of none = none
delivery_of (some o) = o.delivered_at

-- `external_length` is `len(external_id)`.
unfoldable pub open_claim : Env → ℕ → ℕ → ℕ → ClaimCategory → ℤ → Evidence → Who → Bool → M ℕ
open_claim env order_id external_id external_length category raw evidence actor operational = do
  amount ← lift (krw raw)
  raise_when
      (not (is_listed category)
        || amount == 0
        || (ltb external_length 1 || ltb 120 external_length))
      (domain invalid_claim 422)
  raise_when evidence.foreign (domain invalid_evidence_reference 422)
  lock_treasury
  prior ← gets (λ db. find? (λ (r : Claim). r.external_id == external_id) db.claims)
  on_some prior
      (do
        row ← gets (find_order order_id)
        on_some (delivery_of row) (raise (conflict claim_requires_delivery)) (λ at. do
          order ← fetch (find_order order_id)
          new_claim env order_id external_id category amount evidence actor operational at order))
      (λ r. do
        raise_when
            (not (r.order_id == order_id)
              || not (category_same r.category category)
              || not (r.requested_amount == amount)
              || not (same_evidence r.evidence evidence))
            (conflict idempotency_conflict)
        pure r.id)

abbrev is_ready : ClaimStatus → Bool
is_ready ready = true
is_ready _ = false

-- The second transaction of `submit_claim`, after the supplier's receipt.
unfoldable pub claim_submitted : ℕ → M (Unit {0})
claim_submitted i = do
  lock_treasury
  claim ← fetch (find_claim i)
  when (is_ready claim.status) (update_claim i (λ r. record r { status = supplier_review }))
  audit supplier_claim_submitted i system

abbrev awaits_answer : ClaimStatus → Bool → Bool
awaits_answer supplier_review operational = true
awaits_answer ready operational = operational
awaits_answer _ operational = false

abbrev is_accepted_response : Response → Bool
is_accepted_response accepted_response = true
is_accepted_response rejected_response = false

abbrev succeeded_payment : ℕ → Db → Option Payment
succeeded_payment order_id db =
    find? (λ (p : Payment). p.order_id == order_id && is_succeeded p.status) db.payments

abbrev pub paid_amount : ℕ → Db → ℕ
paid_amount order_id db = elim (succeeded_payment order_id db) [ none ↦ 0 | some p ↦ p.amount ]

abbrev over_payment : Option Payment → ℕ → Bool
over_payment none amount = false
over_payment (some p) amount = ltb p.amount amount

abbrev is_operator : Who → Bool
is_operator Who.supplier = false
is_operator Who.system = false
is_operator _ = true

unfoldable pub record_response : Env → Claim → ℕ → Bool → Who → Bool → M (Unit {0})
record_response env claim amount accepted actor operational = do
  raise_when (not (awaits_answer claim.status operational)) (conflict claim_not_submitted)
  payment ← gets (succeeded_payment claim.order_id)
  raise_when
      (ltb claim.requested_amount amount
        || over_payment payment amount
        || (not accepted && not (amount == 0)))
      (conflict invalid_supplier_recovery)
  update_claim claim.id (λ r. record r {
    supplier_response = some (if accepted then accepted_response else rejected_response);
    supplier_accepted_amount = amount;
    status = if accepted then refund_eligible else manual_review;
  })
  when (not accepted) (review env supplier_rejected_claim claim.id)
  when (is_operator actor)
      (intervention (InterventionKey.claim_response claim.id) actor (some claim.order_id))
  audit supplier_claim_response claim.id actor

unfoldable pub supplier_response : Env → ℕ → ℤ → Bool → Who → Bool → M (Unit {0})
supplier_response env i raw accepted actor operational = do
  amount ← lift (krw raw)
  lock_treasury
  row ← gets (find_claim i)
  on_some row (raise (domain claim_not_found 404)) (λ claim.
      on_some claim.supplier_response (record_response env claim amount accepted actor operational)
        (λ said.
          raise_when
            (not (flag_eq (is_accepted_response said) accepted)
              || not (claim.supplier_accepted_amount == amount))
            (conflict supplier_response_conflict)))

-- What the supplier has paid back for an order: by its claims, and by a cancellation.
abbrev pub recovered : ℕ → Db → ℕ
recovered order_id db =
    sum_where (λ (r : Claim). r.order_id == order_id) (λ r. r.supplier_recovery) db.claims
    + sum_where (λ (r : CancellationRecovery). any (is_for r) db.payments) (λ r. r.amount)
        db.cancellation_recoveries
  where
    is_for : CancellationRecovery → Payment → Bool
    is_for r p = p.id == r.payment_id && p.order_id == order_id

-- `has_receipt` is `bool(receipt_id)`.
unfoldable pub confirm_supplier_recovery : Env → ℕ → ℤ → Bool → ℕ → Who → M (Unit {0})
confirm_supplier_recovery env i raw has_receipt receipt_id actor = do
  amount ← lift (krw raw)
  raise_when (amount == 0 || not has_receipt) (conflict confirmed_receipt_required)
  lock_treasury
  claim ← fetch (find_claim i)
  if not (claim.supplier_recovery == 0)
      then raise_when (not (claim.supplier_recovery == amount)) (conflict recovery_conflict)
      else (do
        raise_when (ltb claim.supplier_accepted_amount amount) (conflict recovery_exceeds_accepted)
        order ← fetch (find_order claim.order_id)
        c ← context order
        paid ← gets (paid_amount order.id)
        so_far ← gets (recovered order.id)
        raise_when (ltb paid (so_far + amount)) (conflict recovery_exceeds_supplier_payment)
        post env (recovery_key c.supplier.id receipt_id) supplier_recovery_received
            ((deposit c.supplier.id, pos amount) ∷ (supplier_recovery, neg (pos amount)) ∷ [])
            (some order.id)
        update_claim i (λ r. record r { supplier_recovery = amount })
        intervention (InterventionKey.recovery_confirmed i) actor (some order.id)
        audit supplier_recovery_confirmed i actor)
