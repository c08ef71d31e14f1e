-- ===== src/Tests/Funds.antt =====
-- A second order in the shop, whose supplier holds a deposit.
use saup.Base.{◌≡◌, ◌+◌, ◌-ℤ◌, refl, some, none, [], ◌∷◌, pos, false}
use saup.Domain.OrderState.{OrderState}
use saup.Domain.Errors.{ok}
use saup.Domain.Pricing.{krw}
use saup.Store.Db.{Db}
use saup.Store.Keys.{AccountCode, account_eq}
use saup.Store.Rows.{Order, SupplierProduct, StockStatus}
use saup.Store.Monad.{commit, ◌>>=◌}
use saup.Application.Finance.Ledger.{balance}
use saup.Application.Finance.Reserve.{spendable, reserve_lowers_cash}
use saup.Application.Finance.Treasury.{reserve, treasury}
use saup.Tests.Shop.{env, shop}

abbrev funds : Db
funds = record shop {
  accounts =
      record { code = AccountCode.bank; balance = pos 50000 }
      ∷ record { code = AccountCode.deposit 18; balance = pos 3000 }
      ∷ [];
}

abbrev order : Order
order = record {
  id = 12;
  marketplace = 1;
  external_id = 501;
  external_line_id = 1;
  listing_id = 15;
  quantity = 2;
  gross_sale = 40000;
  discount = 0;
  fee = 4000;
  promotion_cost = 0;
  cost_snapshot = 16000;
  state = OrderState.received;
  cancel_requested = false;
  pii_ciphertext = 3;
  input_hash = 5;
  hold_until = 0;
  delivered_at = none;
  human_interventions = 0;
}

abbrev peaches : SupplierProduct
peaches = record {
  id = 16;
  supplier_id = 18;
  product_id = 17;
  supplier_sku = 9;
  cost = 7000;
  shipping = 1000;
  stock = some 10;
  stock_status = StockStatus.available;
  last_inventory_at = 90000;
}

abbrev reserved : Db
reserved = (commit (reserve env order peaches 16000) funds).1

reserved_lem : reserve env order peaches 16000 funds ≡ ok (tt, reserved)
unfolding commit reserve krw treasury balance ◌>>=◌ ◌-ℤ◌ account_eq
reserved_lem = refl

reserve_lowers_cash_example : spendable env 18 reserved + 16000 ≡ spendable env 18 funds
reserve_lowers_cash_example =
    reserve_lowers_cash env order peaches 16000 funds reserved refl reserved_lem
