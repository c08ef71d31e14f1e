-- ===== src/Domain/OrderState.antt =====
-- packages/domain/state_machine.py: the states of an order and the table of allowed changes, built
-- in the order in which the module's statements run.
pub mod Graph
use saup.Base.{Bool, true, false, List, [], ◌∷◌, ◌++◌, eqb, any, if◌then◌else◌}
use saup.Domain.Errors.{Result, ok, err, conflict, invalid_order_transition}

pub data OrderState : Type 0 where
  received validating validated risk_checked payment_reserved : OrderState
  supplier_order_pending supplier_ordered supplier_paid shipment_pending shipped : OrderState
  delivered settlement_pending settled closed : OrderState
  cancel_requested cancelled claim_open supplier_claim_open refund_pending refunded : OrderState
  payment_failed supplier_failed manual_review failed : OrderState

pub OrderState-discrete : Discrete OrderState
OrderState-discrete = hlevel

-- `x == y` on states.
unfoldable pub same : OrderState → OrderState → Bool
unfolding OrderState-discrete
same = eqb OrderState-discrete

-- The first fourteen states.
abbrev pub normal : List OrderState
normal =
    received ∷ validating ∷ validated ∷ risk_checked ∷ payment_reserved ∷ supplier_order_pending
    ∷ supplier_ordered ∷ supplier_paid ∷ shipment_pending ∷ shipped ∷ delivered ∷ settlement_pending
    ∷ settled ∷ closed ∷ []

-- `NORMAL[:-3]`
abbrev pub interruptible : List OrderState
interruptible =
    received ∷ validating ∷ validated ∷ risk_checked ∷ payment_reserved ∷ supplier_order_pending
    ∷ supplier_ordered ∷ supplier_paid ∷ shipment_pending ∷ shipped ∷ delivered ∷ []

abbrev Table : Type 0
Table = OrderState → List OrderState

-- `ALLOWED[key].update(values)`
extend : OrderState → List OrderState → Table → Table
unfolding same
extend key values table s = if same s key then table s ++ values else table s

-- `for before, after in zip(NORMAL, NORMAL[1:]): ALLOWED[before].add(after)`
chain : List OrderState → Table → Table
unfolding extend
chain [] table = table
chain (before ∷ []) table = table
chain (before ∷ after ∷ rest) table = chain (after ∷ rest) (extend before (after ∷ []) table)

-- `for state in states: ALLOWED[state].update(values)`
extend_all : List OrderState → List OrderState → Table → Table
unfolding extend
extend_all [] values table = table
extend_all (s ∷ states) values table = extend_all states values (extend s values table)

empty : Table
empty s = []

unfoldable pub allowed : OrderState → List OrderState
unfolding empty chain extend_all extend
allowed = extend refunded (settlement_pending ∷ []) (
    extend refund_pending (refunded ∷ manual_review ∷ []) (
      extend supplier_claim_open (refund_pending ∷ manual_review ∷ []) (
        extend claim_open (supplier_claim_open ∷ manual_review ∷ []) (
          extend delivered (claim_open ∷ []) (
            extend supplier_failed (manual_review ∷ []) (
              extend payment_failed (manual_review ∷ []) (
                extend manual_review
                  (validating ∷ cancel_requested ∷ failed ∷ supplier_ordered ∷ [])
                  (extend cancel_requested (cancelled ∷ manual_review ∷ []) (
                    extend supplier_ordered (payment_failed ∷ []) (
                      extend supplier_order_pending (supplier_failed ∷ []) (
                        extend_all interruptible (cancel_requested ∷ manual_review ∷ [])
                          (chain normal empty))))))))))))

-- `target in ALLOWED.get(current, set())`; every state is a key.
unfoldable pub is_allowed : OrderState → OrderState → Bool
unfolding allowed same
is_allowed current target = any (same target) (allowed current)

unfoldable pub validate_transition : OrderState → OrderState → Result (Unit {0})
validate_transition current target =
    if same current target
    then ok tt
    else if is_allowed current target
    then ok tt
    else err (conflict invalid_order_transition)

-- `EARLY_CANCEL`
unfoldable pub early_cancel : OrderState → Bool
early_cancel received = true
early_cancel validating = true
early_cancel validated = true
early_cancel risk_checked = true
early_cancel payment_reserved = true
early_cancel manual_review = true
early_cancel _ = false
