-- ===== src/Tests/Shop.antt =====
-- A shop with one order that its supplier has taken, and the payment that is due for it.
use saup.Base.{true, false, none, some, List, [], ◌∷◌, pos, negsuc, length, ◌==◌}
use saup.Domain.OrderState.{OrderState}
use saup.Domain.SupplierState.{SupplierState}
use saup.Domain.Errors.{ok, err, integration, integration_timeout}
use saup.Store.Db.{Db, Env, demo}
use saup.Store.Keys.{AccountCode}
use saup.Store.Rows.{Who, PaymentStatus, active, remote_active, available, demo_mode, held}
use saup.History.{Request, dispatching, payment_answer, delivery, cancellation}

-- Thirty spaces and all digits are those of ASCII; a hash is a length or an amount.
abbrev pub env : Env
env = record {
  app_mode = demo;
  min_margin = 100000;
  auto_payment_limit = 50000;
  daily_payment_limit = 100000;
  auto_refund_limit = 10000;
  safety_reserve = 1000;
  refund_reserve = 0;
  tax_reserve = 0;
  inventory_max_age_seconds = 86400;
  order_hold_seconds = 600;
  max_job_attempts = 5;
  claim_window = 2592000;
  claim_min_samples = 20;
  claim_warning_rate = 100000;
  claim_pause_rate = 200000;
  seller_loss_pause_rate = 100000;
  now = 100000;
  unicode = record { is_space = λ c. c == 32; is_decimal = λ c. c == 48 };
  decrypt = λ n. record {
    recipient = 65 ∷ [];
    phone = 48 ∷ 48 ∷ 48 ∷ 48 ∷ 48 ∷ 48 ∷ 48 ∷ 48 ∷ 48 ∷ 48 ∷ [];
    postal_code = 48 ∷ 48 ∷ 48 ∷ 48 ∷ 48 ∷ [];
    address1 = 66 ∷ 66 ∷ 66 ∷ 66 ∷ 66 ∷ [];
    address2 = [];
  };
  address_fingerprint = λ a. length a.phone;
  snapshot_fingerprint = λ s. s.amount;
  fingerprint = λ d. 7;
  workbook = λ mapping rows. length rows;
  sha256 = λ n. n;
  encrypt_file = λ n. n;
  decrypt_file = λ n. n;
}

abbrev pub shop : Db
shop = record {
  next_id = 100;
  accounts =
      record { code = AccountCode.control; balance = pos 0 }
      ∷ record { code = AccountCode.bank; balance = pos 50000 }
      ∷ record { code = AccountCode.equity; balance = negsuc 49999 }
      ∷ [];
  journals = [];
  postings =
      record { journal_id = 1; account = AccountCode.bank; delta = pos 50000 }
      ∷ record { journal_id = 1; account = AccountCode.equity; delta = negsuc 49999 }
      ∷ [];
  reservations =
      record {
        id = 14;
        order_id = 11;
        supplier_id = 18;
        bank_amount = 8000;
        deposit_amount = 0;
        status = held;
        inventory_snapshot_at = 90000;
      }
      ∷ [];
  payments =
      record {
        id = 12;
        order_id = 11;
        supplier_order_id = 13;
        amount = 8000;
        destination_fingerprint = 55;
        status = PaymentStatus.pending;
        approved_by = none;
        provider_reference = none;
        dispatched_at = none;
      }
      ∷ [];
  orders =
      record {
        id = 11;
        marketplace = 1;
        external_id = 500;
        external_line_id = 1;
        listing_id = 15;
        quantity = 1;
        gross_sale = 20000;
        discount = 0;
        fee = 2000;
        promotion_cost = 0;
        cost_snapshot = 8000;
        state = OrderState.supplier_ordered;
        cancel_requested = false;
        pii_ciphertext = 3;
        input_hash = 4;
        hold_until = 0;
        delivered_at = none;
        human_interventions = 0;
      }
      ∷ [];
  listings =
      record {
        id = 15;
        supplier_product_id = 16;
        marketplace = 1;
        price = 20000;
        fee_rate = 100000;
        claim_allowance = 100;
        promotion_cost = 0;
        desired_state = active;
        remote_state = remote_active;
        sync_revision = 1;
      }
      ∷ [];
  supplier_products =
      record {
        id = 16;
        supplier_id = 18;
        product_id = 17;
        supplier_sku = 9;
        cost = 7000;
        shipping = 1000;
        stock = some 10;
        stock_status = available;
        last_inventory_at = 90000;
      }
      ∷ [];
  suppliers =
      record {
        id = 18;
        mode = demo_mode;
        destination_fingerprint = some 55;
        destination_approved = true;
        cutoff = 1400;
        claim_days = 2;
        active = true;
      }
      ∷ [];
  products = record { id = 17; tax_known = true; in_season = true } ∷ [];
  supplier_orders =
      record {
        id = 13;
        order_id = 11;
        external_id = some 900;
        status = SupplierState.pending;
        amount = 8000;
      }
      ∷ [];
  shipments = [];
  reviews = [];
  jobs = [];
  audits = [];
  commands = [];
  claims = [];
  refunds = [];
  settlements = [];
  intents = [];
  batches = [];
  batch_items = [];
  proofs = [];
  cancellations = [];
  interventions = [];
  refund_evidence = [];
  cancellation_recoveries = [];
  excel_profiles = [];
  acknowledgements = [];
  confirmations = [];
  evidence_revisions = [];
  confirmation_bindings = [];
  receipts = [];
  settlement_revisions = [];
  cancellation_statements = [];
  statement_revisions = [];
}

-- The provider is asked, its answer is lost, and the marketplace cancels.
abbrev pub lost : List (Env × Request)
lost =
    (env, payment_answer 12 (err (integration integration_timeout true true)))
    ∷ (env, cancellation 11 Who.marketplace)
    ∷ []

-- The provider is asked and pays; a delivery comes too early and is refused.
abbrev pub paid_steps : List (Env × Request)
paid_steps = (env, dispatching 12) ∷ (env, payment_answer 12 (ok 77)) ∷ (env, delivery 11) ∷ []
