-- ===== src/Billing/Invariant.antt =====
-- What every operation of apps/api/app/services/self_manager.py keeps of a billing row: survival
-- mode is exactly the state after three failures, and its start is recorded exactly while it lasts.
use replica_ai.Common.{ℕ, ◌≡◌, Bool, Option, none, some, arith, leb, is_some}
use replica_ai.Common.Raise.{Result}
use replica_ai.Billing.Account.{Account, BillingConfig, Env, ensure_billing_config}
use replica_ai.Billing.Hosting.{
  SetupAnswers, Subscription, check_hosting_status, setup_billing, subscribe, cancel_subscription,
  update_auto_pay,
}
use replica_ai.Billing.Renewal.{
  Charge, charged, declined, broken, settle, renew_hosting, paid, retry_or_survive,
}

pub record IsConsistent (c : BillingConfig) : Type 0 where
  pub survives : c.survival_mode ≡ leb 3 c.payment_retry_count
  pub entered : is_some c.survival_mode_entered_at ≡ c.survival_mode

abbrev pub IsConsistentRow : Option BillingConfig → Type 0
IsConsistentRow none = Unit
IsConsistentRow (some c) = IsConsistent c

-- An account without a billing row is sound.
abbrev pub IsSound : Account → Type 0
IsSound a = IsConsistentRow a.billing

ensure-IsConsistent :
    (env : Env) (a : Account) → IsSound a → IsConsistent (ensure_billing_config env a).0
unfolding ensure_billing_config
ensure-IsConsistent env a h = ground arith

paid-IsConsistent : (now : ℕ) (c : BillingConfig) → IsConsistent c → IsConsistent (paid now c)
unfolding paid
paid-IsConsistent now c h = ground arith

retry_or_survive-IsSound :
    (now : ℕ) (c : BillingConfig) (a : Account)
    → IsConsistent c
    → IsSound (retry_or_survive now c a)
unfolding retry_or_survive
retry_or_survive-IsSound now c a h = ground arith

pub settle-IsSound :
    (env : Env) (c : BillingConfig) (a : Account) (charge : Charge)
    → IsConsistent c
    → IsSound a
    → IsSound (settle env c a charge).1
unfolding settle
settle-IsSound env c a (charged intent) h s = paid-IsConsistent env.now c h
settle-IsSound env c a (declined message) h s = retry_or_survive-IsSound env.now c a h
settle-IsSound env c a (broken message) h s = s

pub renew_hosting-IsSound :
    (env : Env) (charge : Charge) (a : Account) → IsSound a → IsSound (renew_hosting env charge a).1
unfolding renew_hosting
renew_hosting-IsSound env charge a h = ground (
  arith,
  ensure-IsConsistent env a h,
  settle-IsSound env (ensure_billing_config env a).0 (ensure_billing_config env a).1 charge,
)

pub check_hosting_status-IsSound :
    (env : Env) (a : Account) → IsSound a → IsSound (check_hosting_status env a).1
unfolding check_hosting_status
check_hosting_status-IsSound env a h = ground arith

pub setup_billing-IsSound :
    (env : Env) (answers : SetupAnswers) (a : Account)
    → IsSound a
    → IsSound (setup_billing env answers a).1
unfolding setup_billing
setup_billing-IsSound env answers a h = ground arith

pub subscribe-IsSound :
    (env : Env) (retrieved created : Result Subscription) (a : Account)
    → IsSound a
    → IsSound (subscribe env retrieved created a).1
unfolding subscribe
subscribe-IsSound env retrieved created a h = ground arith

pub cancel_subscription-IsSound :
    (env : Env) (modified : Result (Unit {0})) (a : Account)
    → IsSound a
    → IsSound (cancel_subscription env modified a).1
unfolding cancel_subscription
cancel_subscription-IsSound env modified a h = ground arith

pub update_auto_pay-IsSound :
    (env : Env) (hosting llm : Option Bool) (a : Account)
    → IsSound a
    → IsSound (update_auto_pay env hosting llm a).1
unfolding update_auto_pay
update_auto_pay-IsSound env hosting llm a h = ground arith
