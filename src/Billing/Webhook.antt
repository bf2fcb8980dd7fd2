-- ===== src/Billing/Webhook.antt =====
-- `HostingManager.handle_stripe_webhook` of apps/api/app/services/self_manager.py, over all the
-- owners' accounts. Stripe's verification of the payload is an argument.
use Prim.Native.String.{◌++◌ as str_append}
use replica_ai.Common.{
  ℕ, zero, suc, ◌+◌, String, Bool, false, Option, none, some, List, leb, str_eq, truthy, or_default,
  count, update_where, first, if◌then◌else◌, is_some,
}
use replica_ai.Common.Time.{days}
use replica_ai.Common.Raise.{Result, ok, err, value_error, other_error, attribute_error}
use replica_ai.Common.Text.{take_chars}
use replica_ai.Billing.Account.{
  Account, BillingConfig, PaymentStatus, Amount, Env, enter_survival_mode, exit_if_surviving,
}
use replica_ai.Billing.Renewal.{add_payment}

-- `data.get("last_finalization_error", {})`: the key is missing, its value is null, or it is an
-- object with or without a message.
pub data FinalizationError : Type 0 where
  absent null : FinalizationError
  object : Option String → FinalizationError

-- The event's type with the fields that the handler reads.
pub data StripeEvent : Type 0 where
  payment_succeeded : Option String → Option String → ℕ → StripeEvent
  payment_failed : Option String → Option String → ℕ → FinalizationError → StripeEvent
  subscription_deleted : String → StripeEvent
  other : String → StripeEvent

pub data Verification : Type 0 where
  verified : StripeEvent → Verification
  rejected : String → Verification

unfoldable pub event_type : StripeEvent → String
event_type (payment_succeeded _ _ _) = "invoice.payment_succeeded"
event_type (payment_failed _ _ _ _) = "invoice.payment_failed"
event_type (subscription_deleted _) = "customer.subscription.deleted"
event_type (other name) = name

-- `data.get("last_finalization_error", {}).get("message", "Payment failed")`
unfoldable pub failure_message : FinalizationError → Result String
failure_message absent = ok "Payment failed"
failure_message null = err attribute_error
failure_message (object message) = ok (or_default "Payment failed" message)

unfoldable pub is_owner : String → Account → Bool
is_owner owner_id a = str_eq a.owner_id owner_id

unfoldable pub on_payment_succeeded : Env → Option String → ℕ → BillingConfig → Account → Account
unfolding add_payment exit_if_surviving
on_payment_succeeded env intent cents c a =
    add_payment
      (record {
        id = env.log_id;
        stripe_payment_id = intent;
        amount_usd = Amount.of_cents cents;
        description = "Subscription payment";
        status = PaymentStatus.succeeded;
        error_message = none;
      })
      (record a {
        billing = some (
            exit_if_surviving (record c {
              last_payment_at = some env.now;
              hosting_expires_at = some (env.now + days 30);
              payment_retry_count = 0;
            }));
      })

-- `config.payment_retry_count += 1`
abbrev pub counted : BillingConfig → BillingConfig
counted c = record c { payment_retry_count = c.payment_retry_count + 1 }

-- The third failure starts survival mode; the retry date is left alone.
unfoldable pub count_failure : ℕ → BillingConfig → Account → Account
unfolding enter_survival_mode
count_failure now c a =
    let c' = counted c in
    if leb 3 c'.payment_retry_count
    then enter_survival_mode now c' a
    else record a { billing = some c' }

unfoldable pub on_payment_failed :
    Env → Option String → ℕ → String → BillingConfig → Account → Account
unfolding add_payment count_failure
on_payment_failed env intent cents message c a =
    add_payment
      (record {
        id = env.log_id;
        stripe_payment_id = intent;
        amount_usd = Amount.of_cents cents;
        description = "Subscription payment failed";
        status = PaymentStatus.failed;
        error_message = some (take_chars 500 message);
      })
      (count_failure env.now c a)

-- The change to an account that has a billing row.
abbrev pub change_row :
    (BillingConfig → Account → Account) → Option BillingConfig → Account → Account
change_row change none a = a
change_row change (some c) a = change c a

abbrev pub with_billing : (BillingConfig → Account → Account) → Account → Account
with_billing change a = change_row change a.billing a

unfoldable pub has_billing : String → Account → Bool
unfolding is_owner
has_billing owner_id a = if is_owner owner_id a then is_some a.billing else false

unfoldable pub has_customer : String → Account → Bool
has_customer customer a = elim a.billing [
  | none ↦ false
  | some c ↦ elim c.stripe_customer_id [ none ↦ false | some s ↦ str_eq s customer ]
]

unfoldable pub end_subscription : BillingConfig → Account → Account
end_subscription c a = record a {
  billing = some (record c { stripe_subscription_id = none; auto_pay_hosting = false });
}

-- `scalar_one_or_none` raises where more than one row has the customer.
unfoldable pub delete_subscription : ℕ → String → List Account → Result (Unit {0}) × List Account
unfolding has_customer end_subscription
delete_subscription zero customer db = (ok tt, db)
delete_subscription (suc zero) customer db =
    (ok tt, update_where (has_customer customer) (with_billing end_subscription) db)
delete_subscription (suc (suc n)) customer db = (err (other_error "MultipleResultsFound"), db)

-- What a request's session holds: the rows as they are saved, and as the handler has changed them.
pub record Session : Type 0 where
  pub saved : List Account
  pub changed : List Account

abbrev pub open_session : List Account → Session
open_session db = record { saved = db; changed = db }

-- A change to the objects of the session, which no commit has saved.
abbrev pub change_session : (List Account → List Account) → Session → Session
change_session change s = record s { changed = change s.changed }

-- `db.commit()`
abbrev pub commit : Session → List Account
commit s = s.changed

-- The end of a request that raises: `get_db` closes the session, which rolls it back.
abbrev pub roll_back : Session → List Account
roll_back s = s.saved

abbrev pub count_up : BillingConfig → Account → Account
count_up c a = record a { billing = some (counted c) }

-- With no row of that owner the message is not read. The failure is counted before the message is
-- read; where that raises, the count is rolled back.
unfoldable pub record_failure :
    Env
    → Option String
    → ℕ
    → String
    → FinalizationError
    → List Account
    → Result (Unit {0}) × List Account
unfolding has_billing failure_message on_payment_failed
record_failure env intent cents owner_id failure db =
    if is_some (first (has_billing owner_id) db)
    then elim (failure_message failure) [
      | err e ↦ (
        err e,
        roll_back (
            change_session (update_where (has_billing owner_id) (with_billing count_up))
              (open_session db)),
      )
      | ok message ↦ (
        ok tt,
        commit (
            change_session
              (update_where (has_billing owner_id)
                (with_billing (on_payment_failed env intent cents message)))
              (open_session db)),
      )
    ]
    else (ok tt, db)

-- `if owner_id:` lets a missing or empty owner pass with no effect.
unfoldable pub dispatch : Env → StripeEvent → List Account → Result (Unit {0}) × List Account
unfolding has_billing on_payment_succeeded record_failure delete_subscription
dispatch env (payment_succeeded owner intent cents) db =
    if truthy owner
    then (
      ok tt,
      update_where (has_billing (or_default "" owner))
          (with_billing (on_payment_succeeded env intent cents)) db,
    )
    else (ok tt, db)
dispatch env (payment_failed owner intent cents failure) db =
    if truthy owner
    then record_failure env intent cents (or_default "" owner) failure db
    else (ok tt, db)
dispatch env (subscription_deleted customer) db =
    delete_subscription (count (has_customer customer) db) customer db
dispatch env (other name) db = (ok tt, db)

unfoldable pub handle_stripe_webhook :
    Env → Verification → List Account → Result String × List Account
unfolding dispatch event_type
handle_stripe_webhook env (rejected reason) db =
    (err (value_error (str_append "Invalid webhook: " reason)), db)
handle_stripe_webhook env (verified event) db =
    let (r, db') = dispatch env event db in
    (elim r [ ok u ↦ ok (event_type event) | err e ↦ err e ], db')
