-- ===== src/Billing/Renewal.antt =====
-- Payment processing in apps/api/app/services/self_manager.py: `renew_hosting`, on each outcome of
-- the charge that Stripe answers.
use Prim.Native.String.{◌++◌ as str_append}
use replica_ai.Common.{
  ℕ, ◌+◌, String, not, Option, none, some, [], ◌∷◌, ◌++◌, ltb, truthy, if◌then◌else◌,
}
use replica_ai.Common.Time.{days}
use replica_ai.Common.Raise.{Result, ok, err, value_error, other_error}
use replica_ai.Common.Text.{take_chars}
use replica_ai.Billing.Account.{
  Account, BillingConfig, PaymentLog, PaymentStatus, Amount, Env, ensure_billing_config,
  enter_survival_mode, exit_if_surviving,
}

-- The outcome of `stripe.PaymentIntent.create`: an intent, a `StripeError` with its text, or
-- another exception.
pub data Charge : Type 0 where
  charged : String → Charge
  declined : String → Charge
  broken : String → Charge

unfoldable pub add_payment : PaymentLog → Account → Account
add_payment log a = record a { payments = a.payments ++ log ∷ [] }

unfoldable pub renewal_log : Env → Option String → PaymentStatus → Option String → PaymentLog
renewal_log env intent result message = record {
  id = env.log_id;
  stripe_payment_id = intent;
  amount_usd = Amount.monthly_cost;
  description = "Monthly hosting renewal";
  status = result;
  error_message = message;
}

-- The rows after a payment that went through.
unfoldable pub paid : ℕ → BillingConfig → BillingConfig
unfolding exit_if_surviving
paid now c = exit_if_surviving (record c {
  last_payment_at = some now;
  hosting_expires_at = some (now + days 30);
  payment_retry_count = 0;
  next_retry_at = none;
})

-- The rows after a failure: a later retry, or survival mode at the third.
unfoldable pub retry_or_survive : ℕ → BillingConfig → Account → Account
unfolding enter_survival_mode
retry_or_survive now c a =
    let n = c.payment_retry_count + 1 in
    if ltb n 3
    then record a {
      billing = some (record c { payment_retry_count = n; next_retry_at = some (now + days n) });
    }
    else enter_survival_mode now (record c { payment_retry_count = n }) a

unfoldable pub settle : Env → BillingConfig → Account → Charge → Result String × Account
unfolding add_payment renewal_log paid retry_or_survive
settle env c a (charged intent) = (
  ok intent,
  add_payment (renewal_log env (some intent) PaymentStatus.succeeded none)
      (record a { billing = some (paid env.now c) }),
)
settle env c a (declined message) = (
  err (value_error (str_append "Payment failed: " message)),
  add_payment (renewal_log env none PaymentStatus.failed (some (take_chars 500 message)))
      (retry_or_survive env.now c a),
)
settle env c a (broken message) = (err (other_error message), a)

unfoldable pub renew_hosting : Env → Charge → Account → Result String × Account
unfolding ensure_billing_config settle
renew_hosting env charge a =
    let (c, a1) = ensure_billing_config env a in
    if not (truthy c.stripe_customer_id)
    then (err (value_error "No payment method on file."), a1)
    else if not c.auto_pay_hosting
    then (err (value_error "Auto-pay is disabled."), a1)
    else settle env c a1 charge
