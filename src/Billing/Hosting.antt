-- ===== src/Billing/Hosting.antt =====
-- `HostingManager` of apps/api/app/services/self_manager.py. A method takes the account and
-- returns it as committed, with the result or the exception. What Stripe answers is an argument.
use replica_ai.Common.{
  ℕ, String, Bool, true, false, not, ◌||◌, Option, none, some, leb, str_eq, truthy, or_default,
  if◌then◌else◌,
}
use replica_ai.Common.Time.{days_between, max_zero, remaining_after}
use replica_ai.Common.Raise.{Result, ok, err, value_error, ◌>>=◌, ◌>>◌}
use replica_ai.Billing.Account.{
  Account, BillingConfig, SurvivalConfig, Env, ensure_billing_config, get_survival_config,
  exit_if_surviving,
}

-- ─── Status ───

pub data Health : Type 0 where
  survival expired expiring active : Health

pub record HostingStatus : Type 0 where
  pub status : Health
  pub days_until_expiry : Option ℕ
  pub is_auto_pay_active : Bool
  pub survival_mode : Bool
  pub survival_days_remaining : Option ℕ

unfoldable pub days_until_expiry : ℕ → Option ℕ → Option ℕ
days_until_expiry now none = none
days_until_expiry now (some t) = some (max_zero (days_between t now))

-- The `elif` ladder for an account that is not in survival mode.
unfoldable pub health_of : Option ℕ → Health
health_of none = active
health_of (some d) = if leb d 0 then expired else if leb d 7 then expiring else active

unfoldable pub survival_days_remaining : ℕ → SurvivalConfig → Option ℕ → Option ℕ
survival_days_remaining now s none = none
survival_days_remaining now s (some entered) =
    some (remaining_after s.grace_period_days (days_between now entered))

-- `check_hosting_status`; the survival row is fetched, and created, only in survival mode.
unfoldable pub check_hosting_status : Env → Account → HostingStatus × Account
unfolding ensure_billing_config get_survival_config days_until_expiry health_of
    survival_days_remaining
check_hosting_status env a =
    let (c, a1) = ensure_billing_config env a in
    let left = days_until_expiry env.now c.hosting_expires_at in
    let (s, a2) = get_survival_config env a1 in
    if c.survival_mode
    then (
      record {
        status = survival;
        days_until_expiry = left;
        is_auto_pay_active = c.auto_pay_hosting;
        survival_mode = c.survival_mode;
        survival_days_remaining = survival_days_remaining env.now s c.survival_mode_entered_at;
      },
      a2,
    )
    else (
      record {
        status = health_of left;
        days_until_expiry = left;
        is_auto_pay_active = c.auto_pay_hosting;
        survival_mode = c.survival_mode;
        survival_days_remaining = none;
      },
      a1,
    )

-- ─── Stripe customer and subscription ───

-- The answers that one `setup_billing` gets, in the order of its calls: the owner's row, the
-- customer, the attached method, the default method, and the card (last four digits, brand).
pub record SetupAnswers : Type 0 where
  pub owner_row : Result (Unit {0})
  pub customer : Result String
  pub attach : Result (Unit {0})
  pub default_method : Result (Unit {0})
  pub card : Result (Option String × Option String)

setup_calls : SetupAnswers → Result (String × Option String × Option String)
setup_calls s = do
  s.owner_row
  customer_id ← s.customer
  s.attach
  s.default_method
  card ← s.card
  ok (customer_id, card.0, card.1)

-- A customer that exists keeps its identifier.
setup_finish :
    BillingConfig
    → Account
    → Result (String × Option String × Option String)
    → Result BillingConfig × Account
setup_finish c a (err e) = (err e, a)
setup_finish c a (ok (customer_id, last_four, brand)) =
    let c' = record c {
      stripe_customer_id =
          if truthy c.stripe_customer_id then c.stripe_customer_id else some customer_id;
      card_last_four = last_four;
      card_brand = brand;
    } in
    (ok c', record a { billing = some c' })

unfoldable pub setup_billing : Env → SetupAnswers → Account → Result BillingConfig × Account
unfolding ensure_billing_config setup_calls setup_finish
setup_billing env answers a =
    let (c, a1) = ensure_billing_config env a in setup_finish c a1 (setup_calls answers)

pub record Subscription : Type 0 where
  pub id : String
  pub status : String
  pub current_period_end : ℕ

unfoldable pub is_running : Subscription → Bool
is_running sub = str_eq sub.status "active" || str_eq sub.status "trialing"

subscribed : BillingConfig → Subscription → BillingConfig
unfolding exit_if_surviving
subscribed c sub = exit_if_surviving (record c {
  stripe_subscription_id = some sub.id;
  auto_pay_hosting = true;
  hosting_expires_at = some sub.current_period_end;
})

create_subscription : BillingConfig → Account → Result Subscription → Result Subscription × Account
unfolding subscribed
create_subscription c a (err e) = (err e, a)
create_subscription c a (ok sub) = (ok sub, record a { billing = some (subscribed c sub) })

reuse_subscription :
    BillingConfig
    → Account
    → Result Subscription
    → Result Subscription
    → Result Subscription × Account
unfolding create_subscription is_running
reuse_subscription c a (err e) created = (err e, a)
reuse_subscription c a (ok sub) created =
    if is_running sub then (ok sub, a) else create_subscription c a created

-- `subscribe`, with Stripe's answers to `retrieve` and `create`.
unfoldable pub subscribe :
    Env → Result Subscription → Result Subscription → Account → Result Subscription × Account
unfolding ensure_billing_config reuse_subscription create_subscription
subscribe env retrieved created a =
    let (c, a1) = ensure_billing_config env a in
    if not (truthy c.stripe_customer_id)
    then (err (value_error "No payment method on file. Set up billing first."), a1)
    else if truthy c.stripe_subscription_id
    then reuse_subscription c a1 retrieved created
    else create_subscription c a1 created

cancel_finish : BillingConfig → Account → Result (Unit {0}) → Result (Unit {0}) × Account
cancel_finish c a (err e) = (err e, a)
cancel_finish c a (ok u) =
    (ok u, record a { billing = some (record c { auto_pay_hosting = false }) })

unfoldable pub cancel_subscription : Env → Result (Unit {0}) → Account → Result (Unit {0}) × Account
unfolding ensure_billing_config cancel_finish
cancel_subscription env modified a =
    let (c, a1) = ensure_billing_config env a in
    if not (truthy c.stripe_subscription_id)
    then (err (value_error "No active subscription to cancel."), a1)
    else cancel_finish c a1 modified

unfoldable pub update_auto_pay : Env → Option Bool → Option Bool → Account → BillingConfig × Account
unfolding ensure_billing_config
update_auto_pay env hosting llm a =
    let (c, a1) = ensure_billing_config env a in
    let c' = record c {
      auto_pay_hosting = or_default c.auto_pay_hosting hosting;
      auto_pay_llm = or_default c.auto_pay_llm llm;
    } in
    (c', record a1 { billing = some c' })
