-- ===== src/Tests/Files.antt =====
-- A shop whose supplier takes its orders in files: a batch is made, sent and answered.
use saup.Base.{true, false, none, some, [], ◌∷◌, List}
use saup.Domain.OrderState.{OrderState}
use saup.Domain.SupplierState.{Actor, operator}
use saup.Domain.SupplierCommands.{BatchCreate, MarkSent, Acknowledge, manual_evidence, email}
use saup.Store.Db.{Db, Env}
use saup.Store.Rows.{excel}
use saup.History.{Request, history, batch, batch_download, batch_sent, batch_answer}
use saup.Tests.Shop.{env, shop}

abbrev pub worker : Actor
worker = record { name = 5; name_length = 4; role = operator }

abbrev pub file_shop : Db
file_shop = record shop {
  payments = [];
  orders =
      record {
        id = 11;
        marketplace = 1;
        external_id = 500;
        external_line_id = 1;
        listing_id = 15;
        quantity = 1;
        gross_sale = 20000;
        discount = 0;
        fee = 2000;
        promotion_cost = 0;
        cost_snapshot = 8000;
        state = OrderState.supplier_order_pending;
        cancel_requested = false;
        pii_ciphertext = 3;
        input_hash = 4;
        hold_until = 0;
        delivered_at = none;
        human_interventions = 0;
      }
      ∷ [];
  suppliers =
      record {
        id = 18;
        mode = excel;
        destination_fingerprint = some 55;
        destination_approved = true;
        cutoff = 1400;
        claim_days = 2;
        active = true;
      }
      ∷ [];
  intents =
      record {
        supplier_order_id = 13;
        supplier_id = 18;
        amount = 8000;
        snapshot = record {
          supplier_sku = 9;
          supplier_product_id = 16;
          unit_cost = 7000;
          shipping = 1000;
          quantity = 1;
          amount = 8000;
          address_hash = 10;
          input_hash = 4;
          destination_fingerprint = some 55;
          marketplace_order_id = 500;
        };
        snapshot_hash = 8000;
      }
      ∷ [];
  excel_profiles = record { id = 20; supplier_id = 18; mapping = 1 } ∷ [];
}

abbrev pub new_file : BatchCreate
new_file = record {
  supplier_id = 18;
  profile_id = 20;
  supplier_order_ids = 13 ∷ [];
  idempotency_key = 1;
  key_length = 8;
  payment_path = manual_evidence;
}

abbrev pub by_mail : MarkSent
by_mail = record { send_channel = email; send_reference = 3; file_hash = 1 }

abbrev pub all_taken : Acknowledge
all_taken = record {
  accepted_order_ids = 13 ∷ [];
  rejected = [];
  reported_changes = [];
  reference = 8;
}

-- The batch is made twice, downloaded, sent and answered.
abbrev pub file_steps : List (Env × Request)
file_steps =
    (env, batch new_file worker)
    ∷ (env, batch (record new_file { idempotency_key = 2 }) worker)
    ∷ (env, batch_download 100 worker)
    ∷ (env, batch_sent 100 by_mail worker)
    ∷ (env, batch_answer 100 all_taken worker)
    ∷ []

abbrev pub answered : Db
answered = history file_steps file_shop
