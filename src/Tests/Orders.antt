-- ===== src/Tests/Orders.antt =====
-- The payment of the shop's order.
use saup.Base.{◌≡◌, ◌≢◌, refl, true, false, arith, ◌+ℤ◌, ◌-ℤ◌, neg}
use saup.Domain.Errors.{ok}
use saup.Domain.Address.{is_valid}
use saup.Domain.Pricing.{margin, krw, fee_for, rate, ceil_div}
use saup.Domain.OrderState.{same, validate_transition, is_allowed}
use saup.Store.Db.{Db}
use saup.Store.Monad.{commit, ◌>>=◌}
use saup.Application.Common.{lock_treasury}
use saup.Application.OrderRules.{context, transition}
use saup.Application.SupplierOperations.Terms.{validate_order}
use saup.Application.Commerce.Payments.{dispatch, dispatch_by, check_dispatch, send_payment}
use saup.Store.Keys.{account_eq, category_eq, job_key_eq}
use saup.Application.Finance.Treasury.{daily_commitments}
use saup.Application.Common.{review}
use saup.Application.Commerce.Payments.{after_call, mark_unknown}
use saup.Application.Commerce.Cancel.{cancel, cancel_direct}
use saup.History.{history, run}
use saup.History.Payments.{paid_once}
use saup.Tests.Shop.{env, shop, lost}

abbrev asked : Db
asked = (commit (dispatch env 12) shop).1

asked_lem : dispatch env 12 shop ≡ ok (true, asked)
unfolding commit dispatch lock_treasury dispatch_by check_dispatch validate_order context
    send_payment is_valid margin krw fee_for rate ceil_div same ◌>>=◌ ◌+ℤ◌ ◌-ℤ◌ neg account_eq
    daily_commitments
asked_lem = refl

-- The answer was lost and the order cancelled; the worker runs the job again.
abbrev asked_again : Db
asked_again = (commit (dispatch env 12) (history lost asked)).1

asked_again_lem : dispatch env 12 (history lost asked) ≡ ok (false, asked_again)
unfolding commit dispatch lock_treasury dispatch_by check_dispatch validate_order context
    send_payment is_valid margin krw fee_for rate ceil_div same ◌>>=◌ ◌+ℤ◌ ◌-ℤ◌ neg account_eq
    daily_commitments history run after_call mark_unknown review cancel cancel_direct category_eq
    transition validate_transition is_allowed job_key_eq
asked_again_lem = refl

paid_once_example : dispatch env 12 (history lost asked) ≢ ok (true, asked_again)
paid_once_example = paid_once env env 12 shop asked asked_again lost (ground arith) asked_lem
