-- ===== src/Tests/Life.antt =====
-- The life of the shop's order.
use saup.Base.{◌≡◌, refl, none, some, [], ◌∷◌, arith, false}
use saup.Domain.OrderState.{OrderState}
use saup.Store.Db.{Db}
use saup.Store.Rows.{Order}
use saup.Store.Tables.{find_order}
use saup.History.{history}
use saup.Life.Runs.{Reaches, state_of, history-Refines, history-final}
use saup.Tests.Shop.{shop, paid_steps}

abbrev shop_order : Order
shop_order = record {
  id = 11;
  marketplace = 1;
  external_id = 500;
  external_line_id = 1;
  listing_id = 15;
  quantity = 1;
  gross_sale = 20000;
  discount = 0;
  fee = 2000;
  promotion_cost = 0;
  cost_snapshot = 8000;
  state = OrderState.supplier_ordered;
  cancel_requested = false;
  pii_ciphertext = 3;
  input_hash = 4;
  hold_until = 0;
  delivered_at = none;
  human_interventions = 0;
}

abbrev ended_order : Order
ended_order = record shop_order { state = OrderState.cancelled }

abbrev ended_shop : Db
ended_shop = record shop { orders = ended_order ∷ [] }

history-Refines_example :
    Reaches OrderState.supplier_ordered (find_order 11 (history paid_steps shop))
history-Refines_example = history-Refines paid_steps shop 11 shop_order (ground arith) refl

history-final_example :
    state_of (find_order 11 (history paid_steps ended_shop)) ≡ some OrderState.cancelled
history-final_example = history-final paid_steps ended_shop 11 ended_order (ground arith) refl refl
