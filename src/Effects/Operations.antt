-- ===== src/Effects/Operations.antt =====
-- What operators confirm.
use saup.Base.{ℕ, Option}
use saup.Domain.SupplierState.{Actor}
use saup.Store.Db.{Db, Env}
use saup.Store.Rows.{Order}
use saup.Store.CaseRows.{Claim, Refund}
use saup.Store.Monad.Keeps.{Keeps}
use saup.Domain.OperatorCommands.{
  Evidence, FundsInput, ShipmentConfirmation, ClaimResponse, RefundConfirmation, SettlementInput,
  CashConfirmation, SettlementCorrection,
}
use saup.Store.Keys.{Target}
use saup.Store.Rows.{Shipment}
use saup.Store.CaseRows.{Settlement}
use saup.Effects.{
  Effects, effect_rules, lock_treasury-keeps, review-keeps, context-keeps, post-keeps,
  move_deposit-keeps,
}
use saup.Effects.Suppliers.{intervention-keeps, resolve_reviews-keeps}
use saup.Effects.Orders.{delivered-keeps}
use saup.Effects.AfterSales.{
  supplier_response-keeps, confirm_supplier_recovery-keeps, reconcile_settlement-keeps,
  confirm_settlement_cash-keeps,
}
use saup.Effects.{execute_command-keeps}
use saup.Effects.Receipts.{unused_evidence-keeps, receipt-keeps}
use saup.Application.Books.Gains.{
  refund-Gains, adjustment-Gains, statement-Gains, opening-Gains, reversal-Gains,
}
use saup.Application.Operations.Funds.{open_bank, fund_deposit, funds}
use saup.Application.Operations.Delivery.{
  get_order, get_shipment, check_shipment, confirm_shipment, deliver_confirmed, confirm_delivery,
}
use saup.Application.Operations.Cases.{
  get_claim, get_refund, confirm_response, recover_claim, recovery, check_refund, book_refund,
  confirm_refund,
}
use saup.Application.Operations.Settlements.{
  get_settlement, settle_order, settlement, take_cash, settlement_cash, rebook, record_correction,
  apply_correction, correct_settlement,
}

module _ {P : Db → Type 0} ⦃effects : Effects P⦄ where
  pub open_bank-keeps : (env : Env) (i : ℕ) → Keeps P (open_bank env i)
  unfolding open_bank
  open_bank-keeps env i = search (effect_rules, post-keeps, opening-Gains) depth 24

  pub fund_deposit-keeps :
      (env : Env) (i : ℕ) (v : Target) (i_2 : ℕ) → Keeps P (fund_deposit env i v i_2)
  unfolding fund_deposit
  fund_deposit-keeps env i v i_2 = search (effect_rules, move_deposit-keeps) depth 24

  pub funds-keeps :
      (env : Env) (v : FundsInput) (a : Actor) (v_2 : Option ℕ) → Keeps P (funds env v a v_2)
  unfolding funds
  funds-keeps env v a v_2 =
      search (effect_rules, lock_treasury-keeps, receipt-keeps, open_bank-keeps, fund_deposit-keeps)
        depth 24

  pub get_order-keeps : (i : ℕ) → Keeps P (get_order i)
  unfolding get_order
  get_order-keeps i = search (effect_rules) depth 24

  pub get_shipment-keeps : (i : ℕ) → Keeps P (get_shipment i)
  unfolding get_shipment
  get_shipment-keeps i = search (effect_rules) depth 24

  pub check_shipment-keeps :
      (env : Env) (v : ShipmentConfirmation) (v_2 : Shipment) (o : Order)
      → Keeps P (check_shipment env v v_2 o)
  unfolding check_shipment
  check_shipment-keeps env v v_2 o = search (effect_rules) depth 24

  pub confirm_shipment-keeps :
      (env : Env) (i : ℕ) (v : ShipmentConfirmation) (a : Actor)
      → Keeps P (confirm_shipment env i v a)
  unfolding confirm_shipment
  confirm_shipment-keeps env i v a =
      search
        (
          effect_rules, lock_treasury-keeps, receipt-keeps, get_order-keeps, get_shipment-keeps,
          check_shipment-keeps,
        )
        depth 24

  pub deliver_confirmed-keeps : (env : Env) (o : Order) → Keeps P (deliver_confirmed env o)
  unfolding deliver_confirmed
  deliver_confirmed-keeps env o = search (effect_rules, delivered-keeps) depth 24

  pub confirm_delivery-keeps :
      (env : Env) (i : ℕ) (v : Evidence) (a : Actor) → Keeps P (confirm_delivery env i v a)
  unfolding confirm_delivery
  confirm_delivery-keeps env i v a =
      search
        (effect_rules, lock_treasury-keeps, receipt-keeps, get_order-keeps, deliver_confirmed-keeps)
        depth 24

  pub get_claim-keeps : (i : ℕ) → Keeps P (get_claim i)
  unfolding get_claim
  get_claim-keeps i = search (effect_rules) depth 24

  pub get_refund-keeps : (i : ℕ) → Keeps P (get_refund i)
  unfolding get_refund
  get_refund-keeps i = search (effect_rules) depth 24

  pub confirm_response-keeps :
      (env : Env) (i : ℕ) (v : ClaimResponse) (a : Actor) → Keeps P (confirm_response env i v a)
  unfolding confirm_response
  confirm_response-keeps env i v a =
      search
        (effect_rules, lock_treasury-keeps, supplier_response-keeps, receipt-keeps, get_claim-keeps)
        depth 24

  pub recover_claim-keeps :
      (env : Env) (v : Claim) (i : ℕ) (i_2 : ℕ) (i_3 : ℕ) (a : Actor)
      → Keeps P (recover_claim env v i i_2 i_3 a)
  unfolding recover_claim
  recover_claim-keeps env v i i_2 i_3 a =
      search (effect_rules, confirm_supplier_recovery-keeps) depth 24

  pub recovery-keeps :
      (env : Env) (i : ℕ) (v : FundsInput) (a : Actor) → Keeps P (recovery env i v a)
  unfolding recovery
  recovery-keeps env i v a =
      search
        (
          effect_rules, lock_treasury-keeps, context-keeps, receipt-keeps, get_order-keeps,
          get_claim-keeps, recover_claim-keeps,
        )
        depth 24

  pub check_refund-keeps :
      (v : RefundConfirmation) (v_2 : Refund) (v_3 : Claim) (o : Order)
      → Keeps P (check_refund v v_2 v_3 o)
  unfolding check_refund
  check_refund-keeps v v_2 v_3 o = search (effect_rules) depth 24

  pub book_refund-keeps :
      (env : Env) (v : RefundConfirmation) (v_2 : Refund) (v_3 : Claim) (o : Order)
      → Keeps P (book_refund env v v_2 v_3 o)
  unfolding book_refund
  book_refund-keeps env v v_2 v_3 o =
      search (effect_rules, post-keeps, refund-Gains, check_refund-keeps) depth 24

  pub confirm_refund-keeps :
      (env : Env) (i : ℕ) (v : RefundConfirmation) (a : Actor) → Keeps P (confirm_refund env i v a)
  unfolding confirm_refund
  confirm_refund-keeps env i v a =
      search
        (
          effect_rules, lock_treasury-keeps, receipt-keeps, get_order-keeps, get_claim-keeps,
          get_refund-keeps, book_refund-keeps,
        )
        depth 24

  pub get_settlement-keeps : (i : ℕ) → Keeps P (get_settlement i)
  unfolding get_settlement
  get_settlement-keeps i = search (effect_rules) depth 24

  pub settle_order-keeps :
      (env : Env) (v : SettlementInput) (o : Order) (a : Actor) → Keeps P (settle_order env v o a)
  unfolding settle_order
  settle_order-keeps env v o a = search (effect_rules, reconcile_settlement-keeps) depth 24

  pub settlement-keeps :
      (env : Env) (i : ℕ) (v : SettlementInput) (a : Actor) → Keeps P (settlement env i v a)
  unfolding settlement
  settlement-keeps env i v a =
      search (effect_rules, lock_treasury-keeps, receipt-keeps, get_order-keeps, settle_order-keeps)
        depth 24

  pub take_cash-keeps :
      (env : Env) (v : CashConfirmation) (v_2 : Settlement) (a : Actor)
      → Keeps P (take_cash env v v_2 a)
  unfolding take_cash
  take_cash-keeps env v v_2 a = search (effect_rules, confirm_settlement_cash-keeps) depth 24

  pub settlement_cash-keeps :
      (env : Env) (i : ℕ) (v : CashConfirmation) (a : Actor) → Keeps P (settlement_cash env i v a)
  unfolding settlement_cash
  settlement_cash-keeps env i v a =
      search
        (effect_rules, lock_treasury-keeps, receipt-keeps, get_settlement-keeps, take_cash-keeps)
        depth 24

  pub rebook-keeps :
      (env : Env) (v : SettlementCorrection) (v_2 : Settlement) (i : ℕ) (i_2 : ℕ)
      → Keeps P (rebook env v v_2 i i_2)
  unfolding rebook
  rebook-keeps env v v_2 i i_2 =
      search (effect_rules, post-keeps, adjustment-Gains, statement-Gains, reversal-Gains) depth 24

  pub record_correction-keeps :
      (env : Env) (v : SettlementCorrection) (v_2 : Settlement) (i : ℕ) (i_2 : ℕ) (a : Actor)
      → Keeps P (record_correction env v v_2 i i_2 a)
  unfolding record_correction
  record_correction-keeps env v v_2 i i_2 a =
      search (effect_rules, review-keeps, intervention-keeps, resolve_reviews-keeps) depth 24

  pub apply_correction-keeps :
      (env : Env) (v : SettlementCorrection) (v_2 : Settlement) (o : Order) (a : Actor)
      → Keeps P (apply_correction env v v_2 o a)
  unfolding apply_correction
  apply_correction-keeps env v v_2 o a =
      search (effect_rules, unused_evidence-keeps, rebook-keeps, record_correction-keeps) depth 24

  pub correct_settlement-keeps :
      (env : Env) (i : ℕ) (v : SettlementCorrection) (a : Actor)
      → Keeps P (correct_settlement env i v a)
  unfolding correct_settlement
  correct_settlement-keeps env i v a =
      search
        (
          effect_rules, lock_treasury-keeps, execute_command-keeps, get_order-keeps,
          get_settlement-keeps, apply_correction-keeps,
        )
        depth 24
