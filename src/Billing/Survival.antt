-- ===== src/Billing/Survival.antt =====
-- Survival mode and hosting status in apps/api/app/services/self_manager.py: what the daily check
-- does to an account in survival mode, what a further failure does, and what the status reports.
use replica_ai.Common.{
  ◌*◌, ℕ, ◌+◌, ◌≡◌, ◌≤◌, ◌<◌, ◌↔◌, String, Bool, true, false, Option, some, arith, ltb, ◌&&◌,
  if◌then◌else◌,
}
use replica_ai.Common.Time.{day, days_between, at_least}
use replica_ai.Common.Raise.{ok}
use replica_ai.Billing.Account.{
  Account, BillingConfig, SurvivalConfig, Env, existing_or, new_survival_config,
}
use replica_ai.Billing.Hosting.{Health, check_hosting_status}
use replica_ai.Billing.Renewal.{Charge}
use replica_ai.Billing.Webhook.{on_payment_failed}
use replica_ai.Billing.Preservation.{active_family, check_single_owner}
use replica_ai.Billing.Invariant.{IsConsistent}

-- The grace period is over, and no active family rule preserves the account.
abbrev pub is_exhausted : ℕ → ℕ → SurvivalConfig → Account → Bool
is_exhausted now entered s a =
    if s.never_shutdown_with_family && ltb 0 (active_family a)
    then false
    else at_least (days_between now entered) s.grace_period_days

-- The daily check of a sound account in survival mode since `entered` charges nothing and leaves
-- the billing row alone, whatever Stripe would answer: it only makes sure that there is a survival
-- row `s`, and it reports an action exactly when `s` lets the account run out: no active family
-- rule preserves it, and the whole days since `entered` are at least the grace period.
pub check-in_survival :
    (now : ℕ) (env : Env) (charge : Charge) (a : Account) (c : BillingConfig) (entered : ℕ)
    → a.billing ≡ some c
    → IsConsistent c
    → c.survival_mode ≡ true
    → c.survival_mode_entered_at ≡ some entered
    → let s = existing_or a.survival (new_survival_config env.survival_id) in
      check_single_owner now env charge a
      ≡ (ok (is_exhausted now entered s a), record a { survival = some s })
unfolding check_single_owner active_family
check-in_survival now env charge a c entered e h m t = ground arith

-- A failed subscription payment in survival mode starts the grace period again: right after it the
-- status reports the whole grace period as remaining, however long survival mode had lasted.
pub failure_restarts_grace :
    (env : Env) (intent : Option String) (cents : ℕ) (message : String) (a : Account)
    (c : BillingConfig)
    → IsConsistent c
    → c.survival_mode ≡ true
    → let status = (check_hosting_status env (on_payment_failed env intent cents message c a)).0 in
      status.survival_days_remaining
      ≡ some (existing_or a.survival (new_survival_config env.survival_id)).grace_period_days
unfolding check_hosting_status on_payment_failed new_survival_config
failure_restarts_grace env intent cents message a c h m = ground arith

-- Outside survival mode, with hosting that ends at `t`: the status is "expired" exactly while less
-- than one whole day is left, so also up to a day before the end, "expiring" exactly while one to
-- seven whole days are left, and "active" exactly before that; nothing is written.
pub status_by_days :
    (env : Env) (a : Account) (c : BillingConfig) (t : ℕ)
    → a.billing ≡ some c
    → c.survival_mode ≡ false
    → c.hosting_expires_at ≡ some t
    → let (s, b) = check_hosting_status env a in
      (b ≡ a)
      × ((s.status ≡ Health.expired) ↔ (t < env.now + day))
      × ((s.status ≡ Health.expiring) ↔ ((env.now + day ≤ t) × (t < env.now + 8 * day)))
      × ((s.status ≡ Health.active) ↔ (env.now + 8 * day ≤ t))
unfolding check_hosting_status
status_by_days env a c t e m x = ground arith
