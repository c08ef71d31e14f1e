-- ===== src/Domain/OrderState/Graph.antt =====
-- The order's life as a graph, with its edges listed, and what every path through it satisfies.
use saup.Base.{◌≡◌, refl, ◌≢◌, ◌⊎◌, inl, inr, ◌↔◌, Bool, true, false, arith, Bool-cases, sym, ◌∙◌}
use mathlib.Core.Bool.{false≢true}
use saup.Domain.Errors.{ok}
use saup.Domain.OrderState.{
  OrderState, received, validating, validated, risk_checked, payment_reserved,
  supplier_order_pending, supplier_ordered, supplier_paid, shipment_pending, shipped, delivered,
  settlement_pending, settled, closed, cancel_requested, cancelled, claim_open, supplier_claim_open,
  refund_pending, refunded, payment_failed, supplier_failed, manual_review, failed, is_allowed,
  validate_transition, same,
}

-- A state from which the operator may still interrupt the order.
pub data IsOpen : OrderState → Type 0 where
  received_open : IsOpen received
  validating_open : IsOpen validating
  validated_open : IsOpen validated
  risk_checked_open : IsOpen risk_checked
  payment_reserved_open : IsOpen payment_reserved
  supplier_order_pending_open : IsOpen supplier_order_pending
  supplier_ordered_open : IsOpen supplier_ordered
  supplier_paid_open : IsOpen supplier_paid
  shipment_pending_open : IsOpen shipment_pending
  shipped_open : IsOpen shipped
  delivered_open : IsOpen delivered

infix 40 ◌⟶◌
pub data ◌⟶◌ : OrderState → OrderState → Type 0 where
  validate : received ⟶ validating
  pass : validating ⟶ validated
  assess : validated ⟶ risk_checked
  reserve : risk_checked ⟶ payment_reserved
  request : payment_reserved ⟶ supplier_order_pending
  order : supplier_order_pending ⟶ supplier_ordered
  pay : supplier_ordered ⟶ supplier_paid
  await_shipment : supplier_paid ⟶ shipment_pending
  ship : shipment_pending ⟶ shipped
  deliver : shipped ⟶ delivered
  reconcile : delivered ⟶ settlement_pending
  settle : settlement_pending ⟶ settled
  close : settled ⟶ closed
  interrupt : {s : OrderState} → IsOpen s → s ⟶ cancel_requested
  hold : {s : OrderState} → IsOpen s → s ⟶ manual_review
  supplier_fails : supplier_order_pending ⟶ supplier_failed
  payment_fails : supplier_ordered ⟶ payment_failed
  cancel : cancel_requested ⟶ cancelled
  hold_cancel : cancel_requested ⟶ manual_review
  retry : manual_review ⟶ validating
  give_up : manual_review ⟶ cancel_requested
  fail : manual_review ⟶ failed
  revalidate : manual_review ⟶ supplier_ordered
  hold_payment : payment_failed ⟶ manual_review
  hold_supplier : supplier_failed ⟶ manual_review
  claim : delivered ⟶ claim_open
  pass_on : claim_open ⟶ supplier_claim_open
  hold_claim : claim_open ⟶ manual_review
  accept : supplier_claim_open ⟶ refund_pending
  hold_supplier_claim : supplier_claim_open ⟶ manual_review
  refund : refund_pending ⟶ refunded
  hold_refund : refund_pending ⟶ manual_review
  resume : refunded ⟶ settlement_pending

-- Every edge of the graph is in the table.
⟶-is_allowed : {s t : OrderState} → s ⟶ t → is_allowed s t ≡ true
unfolding is_allowed
⟶-is_allowed validate = refl
⟶-is_allowed (interrupt received_open) = refl
⟶-is_allowed (interrupt _) = refl
⟶-is_allowed (hold received_open) = refl
⟶-is_allowed (hold _) = refl
⟶-is_allowed _ = refl

-- Every entry of the table is an edge of the graph.
is_allowed-⟶ : (s t : OrderState) → is_allowed s t ≡ true → s ⟶ t
unfolding is_allowed
is_allowed-⟶ received validating h = validate
is_allowed-⟶ validating validated h = pass
is_allowed-⟶ validated risk_checked h = assess
is_allowed-⟶ risk_checked payment_reserved h = reserve
is_allowed-⟶ payment_reserved supplier_order_pending h = request
is_allowed-⟶ supplier_order_pending supplier_ordered h = order
is_allowed-⟶ supplier_ordered supplier_paid h = pay
is_allowed-⟶ supplier_paid shipment_pending h = await_shipment
is_allowed-⟶ shipment_pending shipped h = ship
is_allowed-⟶ shipped delivered h = deliver
is_allowed-⟶ delivered settlement_pending h = reconcile
is_allowed-⟶ settlement_pending settled h = settle
is_allowed-⟶ settled closed h = close
is_allowed-⟶ supplier_order_pending supplier_failed h = supplier_fails
is_allowed-⟶ supplier_ordered payment_failed h = payment_fails
is_allowed-⟶ cancel_requested cancelled h = cancel
is_allowed-⟶ cancel_requested manual_review h = hold_cancel
is_allowed-⟶ manual_review validating h = retry
is_allowed-⟶ manual_review cancel_requested h = give_up
is_allowed-⟶ manual_review failed h = fail
is_allowed-⟶ manual_review supplier_ordered h = revalidate
is_allowed-⟶ payment_failed manual_review h = hold_payment
is_allowed-⟶ supplier_failed manual_review h = hold_supplier
is_allowed-⟶ delivered claim_open h = claim
is_allowed-⟶ claim_open supplier_claim_open h = pass_on
is_allowed-⟶ claim_open manual_review h = hold_claim
is_allowed-⟶ supplier_claim_open refund_pending h = accept
is_allowed-⟶ supplier_claim_open manual_review h = hold_supplier_claim
is_allowed-⟶ refund_pending refunded h = refund
is_allowed-⟶ refund_pending manual_review h = hold_refund
is_allowed-⟶ refunded settlement_pending h = resume
is_allowed-⟶ received cancel_requested h = interrupt received_open
is_allowed-⟶ received manual_review h = hold received_open
is_allowed-⟶ validating cancel_requested h = interrupt validating_open
is_allowed-⟶ validating manual_review h = hold validating_open
is_allowed-⟶ validated cancel_requested h = interrupt validated_open
is_allowed-⟶ validated manual_review h = hold validated_open
is_allowed-⟶ risk_checked cancel_requested h = interrupt risk_checked_open
is_allowed-⟶ risk_checked manual_review h = hold risk_checked_open
is_allowed-⟶ payment_reserved cancel_requested h = interrupt payment_reserved_open
is_allowed-⟶ payment_reserved manual_review h = hold payment_reserved_open
is_allowed-⟶ supplier_order_pending cancel_requested h = interrupt supplier_order_pending_open
is_allowed-⟶ supplier_order_pending manual_review h = hold supplier_order_pending_open
is_allowed-⟶ supplier_ordered cancel_requested h = interrupt supplier_ordered_open
is_allowed-⟶ supplier_ordered manual_review h = hold supplier_ordered_open
is_allowed-⟶ supplier_paid cancel_requested h = interrupt supplier_paid_open
is_allowed-⟶ supplier_paid manual_review h = hold supplier_paid_open
is_allowed-⟶ shipment_pending cancel_requested h = interrupt shipment_pending_open
is_allowed-⟶ shipment_pending manual_review h = hold shipment_pending_open
is_allowed-⟶ shipped cancel_requested h = interrupt shipped_open
is_allowed-⟶ shipped manual_review h = hold shipped_open
is_allowed-⟶ delivered cancel_requested h = interrupt delivered_open
is_allowed-⟶ delivered manual_review h = hold delivered_open
is_allowed-⟶ _ _ h = absurd (false≢true h)

same→eq : (s t : OrderState) → same s t ≡ true → s ≡ t
unfolding same
same→eq s t h = ground arith

same_refl : (s : OrderState) → same s s ≡ true
unfolding same
same_refl s = ground arith

refused :
    (s t : OrderState) → same s t ≡ false → is_allowed s t ≡ false → validate_transition s t ≢ ok tt
unfolding validate_transition
refused s t moved no_edge h = ground arith

outside : (s t : OrderState) → same s t ≡ false → is_allowed s t ≡ false → (s ≡ t) ⊎ (s ⟶ t) → ⊥
outside s t moved no_edge (inl e) = false≢true (sym moved ∙ rw e (same_refl t))
outside s t moved no_edge (inr e) = false≢true (sym no_edge ∙ ⟶-is_allowed e)

-- The table allows exactly the changes of the graph, and a state may be kept.
pub validate_transition_iff :
    (s t : OrderState) → (validate_transition s t ≡ ok tt) ↔ ((s ≡ t) ⊎ (s ⟶ t))
validate_transition_iff s t = elim (Bool-cases (same s t)) [
  | inl kept ↦ (λ _. inl (same→eq s t kept), λ _. unfold validate_transition in rw kept)
  | inr moved ↦ elim (Bool-cases (is_allowed s t)) [
    | inl yes_edge ↦ (
      λ _. inr (is_allowed-⟶ s t yes_edge),
      λ _. unfold validate_transition in rw (moved, yes_edge),
    )
    | inr no_edge ↦
        (λ h. absurd (refused s t moved no_edge h), λ h. absurd (outside s t moved no_edge h))
  ]
]

-- The changes that the code accepted, from a new order on, none of them to the state `avoided`.
pub data History (avoided : OrderState) : OrderState → Type 0 where
  new : History avoided received
  change :
      {s t : OrderState}
      → History avoided s
      → validate_transition s t ≡ ok tt
      → t ≢ avoided
      → History avoided t

-- The states that lie before the supplier is paid, and those before the delivery.
abbrev pub before_payment : OrderState → Bool
before_payment supplier_paid = false
before_payment shipment_pending = false
before_payment shipped = false
before_payment delivered = false
before_payment settlement_pending = false
before_payment settled = false
before_payment closed = false
before_payment claim_open = false
before_payment supplier_claim_open = false
before_payment refund_pending = false
before_payment refunded = false
before_payment _ = true

abbrev pub before_delivery : OrderState → Bool
before_delivery delivered = false
before_delivery settlement_pending = false
before_delivery settled = false
before_delivery closed = false
before_delivery claim_open = false
before_delivery supplier_claim_open = false
before_delivery refund_pending = false
before_delivery refunded = false
before_delivery _ = true

payment_edge :
    {s t : OrderState}
    → s ⟶ t
    → t ≢ supplier_paid
    → before_payment s ≡ true
    → before_payment t ≡ true
payment_edge validate ne h = ground arith
payment_edge (interrupt received_open) ne h = ground arith
payment_edge (interrupt _) ne h = ground arith
payment_edge (hold received_open) ne h = ground arith
payment_edge (hold _) ne h = ground arith
payment_edge _ ne h = ground arith

delivery_edge :
    {s t : OrderState} → s ⟶ t → t ≢ delivered → before_delivery s ≡ true → before_delivery t ≡ true
delivery_edge validate ne h = ground arith
delivery_edge (interrupt received_open) ne h = ground arith
delivery_edge (interrupt _) ne h = ground arith
delivery_edge (hold received_open) ne h = ground arith
delivery_edge (hold _) ne h = ground arith
delivery_edge _ ne h = ground arith

-- An order that was never marked as paid to the supplier is neither shipped nor delivered, and no
-- claim, settlement or closing has taken place.
pub unpaid_order : {t : OrderState} → History supplier_paid t → before_payment t ≡ true
unpaid_order new = refl
unpaid_order (change {s = s} {t = t} r e ne) = elim ((validate_transition_iff s t).0 e) [
  | inl kept ↦ rw (← kept) (unpaid_order r)
  | inr edge ↦ payment_edge edge ne (unpaid_order r)
]

-- An order that was never delivered has no claim, refund or settlement, and is not closed.
pub undelivered_order : {t : OrderState} → History delivered t → before_delivery t ≡ true
undelivered_order new = refl
undelivered_order (change {s = s} {t = t} r e ne) = elim ((validate_transition_iff s t).0 e) [
  | inl kept ↦ rw (← kept) (undelivered_order r)
  | inr edge ↦ delivery_edge edge ne (undelivered_order r)
]

abbrev pub is_final : OrderState → Bool
is_final closed = true
is_final cancelled = true
is_final failed = true
is_final _ = false

pub final_edge : {s t : OrderState} → s ⟶ t → is_final s ≡ true → ⊥
final_edge validate h = ground arith
final_edge (interrupt received_open) h = ground arith
final_edge (interrupt _) h = ground arith
final_edge (hold received_open) h = ground arith
final_edge (hold _) h = ground arith
final_edge _ h = ground arith

-- A closed, cancelled or failed order keeps its state: every other change is refused.
pub final_order : (s t : OrderState) → is_final s ≡ true → validate_transition s t ≡ ok tt → s ≡ t
final_order s t final accepted = elim ((validate_transition_iff s t).0 accepted) [
  | inl kept ↦ kept
  | inr edge ↦ absurd (final_edge edge final)
]
