-- ===== src/History/Payments.antt =====
-- One call of the provider for one payment.
use saup.Base.{ℕ, ◌<◌, ◌≡◌, ◌≢◌, refl, subst, Bool, true, false, List}
use saup.Domain.Errors.{ok}
use saup.Store.Db.{Db, Env}
use saup.Store.Monad.Ensures.{Post}
use saup.Application.Commerce.Payments.{dispatch}
use saup.Dispatch.{Gone}
use saup.Dispatch.Kept.{gone_effects}
use saup.Dispatch.Once.{dispatch-Sends, dispatch-rests}
use saup.Dispatch.Payments.{gone_sends}
use saup.History.{Request, history}
use saup.History.Kept.{history-keeps}

-- When `execute_payment` has decided to call the provider for a payment, no later run of it decides so
-- again, whatever transactions were committed or rolled back in between and whatever was answered. The
-- payment's identifier is one that was given out.
pub paid_once :
    (env again : Env) (i : ℕ) (db mid later : Db) (steps : List (Env × Request))
    → i < db.next_id
    → dispatch env i db ≡ ok (true, mid)
    → dispatch again i (history steps mid) ≢ ok (true, later)
paid_once env again i db mid later steps old sent = λ asked.
    let gone : Gone i mid =
      subst (Post (λ (c : Bool) (after : Db). c ≡ true → Gone i after)) sent
        ((dispatch-Sends env i).at db old) refl in
    let rests : true ≡ false =
      subst (Post (λ (c : Bool) (after : Db). c ≡ false)) asked (
        (dispatch-rests again i).at (history steps mid)
          (history-keeps gone_sends steps mid gone)) in
    cc
