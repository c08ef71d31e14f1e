-- ===== src/Domain/SupplierState.antt =====
-- packages/domain/supplier_operations.py: the states of a supplier order, the table of their
-- changes, and the ranks of the people who may command them.
pub mod Graph
use saup.Base.{
  ℕ, Bool, true, false, List, [], ◌∷◌, Option, none, some, eqb, any, ltb, leb, ◌||◌, if◌then◌else◌,
}
use saup.Domain.Errors.{
  Result, ok, err, domain, conflict, invalid_supplier_order_transition, forbidden,
}

-- `accepted` and `sending` belong to the adapters' lifecycle and are no keys of the table.
pub data SupplierState : Type 0 where
  pending batched file_ready exported sent acknowledged payment_pending paid : SupplierState
  shipment_pending shipped rejected cancel_pending cancelled manual_review : SupplierState
  accepted sending : SupplierState

pub SupplierState-discrete : Discrete SupplierState
SupplierState-discrete = hlevel

unfoldable pub same : SupplierState → SupplierState → Bool
unfolding SupplierState-discrete
same = eqb SupplierState-discrete

-- `TRANSITIONS.get(current, set())`
unfoldable pub transitions : SupplierState → List SupplierState
transitions pending = batched ∷ cancelled ∷ manual_review ∷ []
transitions batched = file_ready ∷ cancelled ∷ manual_review ∷ []
transitions file_ready = exported ∷ sent ∷ pending ∷ cancelled ∷ manual_review ∷ []
transitions exported = sent ∷ pending ∷ cancelled ∷ manual_review ∷ []
transitions sent = acknowledged ∷ rejected ∷ manual_review ∷ cancel_pending ∷ []
transitions acknowledged = payment_pending ∷ manual_review ∷ cancel_pending ∷ []
transitions payment_pending = paid ∷ manual_review ∷ cancel_pending ∷ []
transitions paid = shipment_pending ∷ cancel_pending ∷ []
transitions shipment_pending = shipped ∷ cancel_pending ∷ []
transitions shipped = cancel_pending ∷ []
transitions rejected = cancelled ∷ []
transitions cancel_pending = cancelled ∷ []
transitions cancelled = []
transitions manual_review = acknowledged ∷ pending ∷ rejected ∷ cancel_pending ∷ cancelled ∷ []
transitions accepted = []
transitions sending = []

unfoldable pub is_allowed : SupplierState → SupplierState → Bool
unfolding transitions same
is_allowed current target = any (same target) (transitions current)

unfoldable pub validate_supplier_transition : SupplierState → SupplierState → Result (Unit {0})
validate_supplier_transition current target =
    if same current target
    then ok tt
    else if is_allowed current target
    then ok tt
    else err (conflict invalid_supplier_order_transition)

-- The roles that have a rank; any other text has none.
pub data Role : Type 0 where
  viewer operator admin other_role : Role

-- `ranks.get(role, -1)`, moved up by one.
abbrev pub rank : Role → ℕ
rank other_role = 0
rank viewer = 1
rank operator = 2
rank admin = 3

-- `name` is the user's number, `name_length` the length of the user name.
pub record Actor : Type 0 where
  pub name : ℕ
  pub name_length : ℕ
  pub role : Role

-- `Actor.require`
unfoldable pub require : Actor → Role → Result (Unit {0})
require a minimum =
    if leb a.name_length 0 || (ltb 80 a.name_length || ltb (rank a.role) (rank minimum))
    then err (domain forbidden 403)
    else ok tt
