-- ===== src/Domain/Errors.antt =====
-- packages/domain/errors.py, and the outcome of a Python call: a value or an exception.
use saup.Base.{ℕ, Bool, ◌≡◌, refl, ◌⊎◌, inl, inr}

-- The stable codes of `DomainError` and `IntegrationError`, one constructor for each string.
pub data Code : Type 0 where
  invalid_krw invalid_rate zero_revenue invalid_price_step impossible_margin : Code
  incomplete_market_input invalid_market_signal invalid_weight invalid_experiment_metrics : Code
  invalid_order_transition invalid_supplier_order_transition : Code
  database_not_initialized idempotency_key_required idempotency_conflict : Code
  unbalanced_journal reservation_amount_changed reservation_already_final : Code
  insufficient_cash out_of_stock paid_reservation_cannot_be_released : Code
  payment_without_reservation payment_reservation_mismatch payment_would_overdraw_account : Code
  cancel_requested supplier_inactive listing_paused tax_classification_required : Code
  out_of_season unknown_inventory stale_inventory supplier_cutoff : Code
  margin_below_threshold reserved_cost_changed address_error : Code
  order_identity_payload_conflict invalid_listing marketplace_line_after_cancellation : Code
  order_not_found order_not_validatable order_already_has_business_effects order_hold : Code
  payment_not_found approval_snapshot_mismatch payment_not_awaiting_approval : Code
  daily_payment_limit payment_not_dispatchable destination_changed : Code
  destination_not_whitelisted order_not_payable manual_payment_cannot_dispatch : Code
  payment_not_provider_confirmable manual_payment_cannot_use_provider_receipt : Code
  payment_not_reconcilable supplier_resource_not_found supplier_ack_required : Code
  supplier_order_not_payable supplier_identity_changed supplier_frozen_terms_changed : Code
  legacy_supplier_state_unverified supplier_intent_integrity_error : Code
  supplier_order_not_found shipment_order_mismatch shipment_supplier_mismatch : Code
  tracking_conflict duplicate_tracking order_not_shippable supplier_order_not_shippable : Code
  invalid_claim invalid_evidence_reference claim_requires_delivery : Code
  post_settlement_claim_requires_manual_reconciliation refund_exceeds_sale : Code
  claim_not_found supplier_response_conflict claim_not_submitted : Code
  invalid_supplier_recovery confirmed_receipt_required recovery_conflict : Code
  recovery_exceeds_accepted recovery_exceeds_supplier_payment invalid_refund : Code
  post_settlement_refund_requires_manual_reconciliation claim_not_refundable : Code
  refund_exceeds_sale_or_claim invalid_adjustment invalid_tolerance settlement_conflict : Code
  settlement_requires_delivery pending_refund_reconciliation : Code
  negative_settlement_requires_manual_reconciliation : Code
  not_supported integration_timeout provider_result_unknown : Code
  blocked_by_provider_access blocked_by_credentials manual_approval_required : Code
  blocked_by_supplier_api unknown_marketplace invalid_external_order_status : Code
  unknown_job_kind unexpected_handler_error attempts_exhausted job_not_replayable : Code
  financial_or_order_replay_requires_reconciliation : Code
  manual_external_shipment_confirmation_required : Code
  manual_external_listing_confirmation_required rate_limited forbidden : Code
  supplier_cancel_confirmation_not_required supplier_cancellation_conflict : Code
  batch_already_resolved batch_superseded : Code
  supplier_order_rejected supplier_terms_changed duplicate_batch_order demo_disabled : Code
  batch_supplier_profile_mismatch cross_supplier_batch supplier_order_not_batchable : Code
  supplier_order_already_batched batch_file_invalidated batch_file_integrity_error : Code
  supplier_send_conflict batch_not_sendable supplier_ack_conflict supplier_batch_not_sent : Code
  ack_batch_membership_mismatch ack_change_membership_mismatch : Code
  payment_evidence_conflict payment_evidence_reference_in_use payment_evidence_not_allowed : Code
  payment_evidence_snapshot_mismatch payment_evidence_requires_reconciliation : Code
  payment_confirmation_conflict payment_evidence_correction_required : Code
  stale_evidence_revision payment_confirmation_snapshot_mismatch : Code
  payment_not_evidence_confirmable payment_approval_required legacy_order_not_adoptable : Code
  batch_unresolved_business_issue batch_has_open_reviews invalid_quantity : Code
  duplicate_export_order : Code
  external_evidence_already_used confirmation_conflict supplier_not_found : Code
  shipment_not_found refund_not_found settlement_not_found : Code
  insufficient_uncommitted_bank opening_requires_empty_ledger : Code
  shipment_identity_mismatch order_not_shipped external_shipment_confirmation_required : Code
  recovery_already_recorded recovery_receipt_in_use refund_identity_mismatch : Code
  refund_not_awaiting_manual_evidence sale_accounting_required : Code
  refund_fee_reconciliation_required multi_line_marketplace_order_unsupported : Code
  open_claim_reconciliation_required cash_already_confirmed : Code
  confirmed_settlement_correction_blocked settlement_reference_in_use : Code
  stale_settlement_revision settlement_receipt_amount_mismatch : Code

-- `domain code status`, `integration code retryable uncertain` (whose status is always 503),
-- pydantic's `ValidationError`, and any other exception, such as reading a field of a missing row.
pub data Error : Type 0 where
  domain : Code → ℕ → Error
  integration : Code → Bool → Bool → Error
  validation : Error
  unexpected : Error

pub data Result {ℓ} (A : Type ℓ) : Type ℓ where
  ok : A → Result A
  err : Error → Result A

-- `raise DomainError(code)` has the status 409.
abbrev pub conflict : Code → Error
conflict code = domain code 409

infixl 5 ◌>>=◌ ◌>>◌
abbrev pub ◌>>=◌ {ℓ κ} : {A : Type ℓ} {B : Type κ} → Result A → (A → Result B) → Result B
err e >>= next = err e
ok value >>= next = next value

abbrev pub ◌>>◌ {ℓ} : {B : Type ℓ} → Result (Unit {0}) → Result B → Result B
m >> k = m >>= λ _. k

-- `if test: raise error`
abbrev pub raise_if : Bool → Error → Result (Unit {0})
raise_if Bool.true e = err e
raise_if Bool.false e = ok tt

pub Result-cases {ℓ} :
    {A : Type ℓ} (r : Result A) → ((a : A) × (r ≡ ok a)) ⊎ ((e : Error) × (r ≡ err e))
Result-cases (ok a) = inl (a, refl)
Result-cases (err e) = inr (e, refl)

unfoldable pub Code-discrete : Discrete Code
Code-discrete = hlevel
