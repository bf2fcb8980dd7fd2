-- ===== src/Billing/Preservation.antt =====
-- `SelfPreservation` of apps/api/app/services/self_manager.py: the daily check of every account,
-- and the retries of failed payments.
use replica_ai.Common.{
  ℕ, ◌+◌, String, Bool, true, false, not, ◌&&◌, Option, none, some, List, [], ◌∷◌, leb, ltb, count,
  or_default, if◌then◌else◌,
}
use replica_ai.Common.Time.{days_between, at_least}
use replica_ai.Common.Raise.{Result, ok, err, value_error}
use replica_ai.Billing.Account.{Account, BillingConfig, SurvivalConfig, Env, get_survival_config}
use replica_ai.Billing.Renewal.{Charge, renew_hosting}

-- `update_survival_config`: the values of the request that are not `None`.
unfoldable pub update_survival_config :
    Env → Option ℕ → Option Bool → Option Bool → Option Bool → Account → SurvivalConfig × Account
unfolding get_survival_config
update_survival_config env grace notify weekly never a =
    let (s, a1) = get_survival_config env a in
    let s' = record s {
      grace_period_days = or_default s.grace_period_days grace;
      notify_family = or_default s.notify_family notify;
      weekly_reminders = or_default s.weekly_reminders weekly;
      never_shutdown_with_family = or_default s.never_shutdown_with_family never;
    } in
    (s', record a1 { survival = some s' })

abbrev pub reached : ℕ → Option ℕ → Bool
reached now none = false
reached now (some t) = leb t now

abbrev pub passed : ℕ → Option ℕ → Bool
passed now none = false
passed now (some t) = ltb t now

-- The test of step 1, and the query of `check_hosting_retries`.
unfoldable pub is_retry_due : ℕ → BillingConfig → Bool
is_retry_due now c =
    ltb 0 c.payment_retry_count
    && ltb c.payment_retry_count 3
    && reached now c.next_retry_at
    && c.auto_pay_hosting

-- The test of step 2.
unfoldable pub is_renewal_due : ℕ → BillingConfig → Bool
is_renewal_due now c = passed now c.hosting_expires_at && c.auto_pay_hosting && not c.survival_mode

unfoldable pub active_family : Account → ℕ
active_family a = count (λ r. r.is_active) a.rules

-- Step 3: the grace period, unless an active family rule preserves the account.
unfoldable pub countdown : ℕ → Env → ℕ → Account → Bool × Account
unfolding get_survival_config active_family
countdown now env entered a =
    let (s, a1) = get_survival_config env a in
    if s.never_shutdown_with_family && ltb 0 (active_family a1)
    then (false, a1)
    else (at_least (days_between now entered) s.grace_period_days, a1)

unfoldable pub survival_check : ℕ → Env → BillingConfig → Account → Bool × Account
unfolding countdown
survival_check now env c a =
    if c.survival_mode
    then elim c.survival_mode_entered_at [
      | none ↦ (false, a)
      | some entered ↦ countdown now env entered a
    ]
    else (false, a)

-- Step 3 reads the row as step 2 left it.
unfoldable pub check_survival : ℕ → Env → Account → Bool × Account
unfolding survival_check
check_survival now env a = elim a.billing [
  | none ↦ (false, a)
  | some c ↦ survival_check now env c a
]

-- A retry that fails with `ValueError` counts as an action.
unfoldable pub after_retry : Result String × Account → Result Bool × Account
after_retry (ok _, a) = (ok true, a)
after_retry (err (value_error _), a) = (ok true, a)
after_retry (err e, a) = (err e, a)

-- A renewal that fails with `ValueError` goes on to step 3.
unfoldable pub after_renewal : ℕ → Env → Result String × Account → Result Bool × Account
unfolding check_survival
after_renewal now env (ok _, a) = (ok true, a)
after_renewal now env (err (value_error _), a) =
    let (acted, a') = check_survival now env a in (ok acted, a')
after_renewal now env (err e, a) = (err e, a)

unfoldable pub check_config : ℕ → Env → Charge → BillingConfig → Account → Result Bool × Account
unfolding is_retry_due is_renewal_due after_retry after_renewal survival_check renew_hosting
check_config now env charge c a =
    if is_retry_due now c
    then after_retry (renew_hosting env charge a)
    else if is_renewal_due now c
    then after_renewal now env (renew_hosting env charge a)
    else let (acted, a') = survival_check now env c a in (ok acted, a')

-- `_check_single_owner` on the account of one billing row; `now` is the daily check's time, and
-- `env.now` the time of the payment.
unfoldable pub check_single_owner : ℕ → Env → Charge → Account → Result Bool × Account
unfolding check_config
check_single_owner now env charge a = elim a.billing [
  | none ↦ (ok false, a)
  | some c ↦ check_config now env charge c a
]

unfoldable pub tally : Result Bool → ℕ
tally (ok true) = 1
tally (ok false) = 0
tally (err e) = 0

-- `daily_check`: an exception is logged, and the next owner is checked.
unfoldable pub daily_check :
    ℕ → (String → Env) → (String → Charge) → List Account → ℕ × List Account
unfolding check_single_owner tally
daily_check now envs charges [] = (0, [])
daily_check now envs charges (a ∷ db) =
    let (r, a') = check_single_owner now (envs a.owner_id) (charges a.owner_id) a in
    let (n, db') = daily_check now envs charges db in (tally r + n, a' ∷ db')

unfoldable pub counts_as_retried : Result String → ℕ
counts_as_retried (ok _) = 1
counts_as_retried (err (value_error _)) = 1
counts_as_retried (err e) = 0

unfoldable pub needs_retry : ℕ → Account → Bool
unfolding is_retry_due
needs_retry now a = elim a.billing [ none ↦ false | some c ↦ is_retry_due now c ]

unfoldable pub check_hosting_retries :
    ℕ → (String → Env) → (String → Charge) → List Account → ℕ × List Account
unfolding needs_retry counts_as_retried renew_hosting
check_hosting_retries now envs charges [] = (0, [])
check_hosting_retries now envs charges (a ∷ db) =
    let (n, db') = check_hosting_retries now envs charges db in
    let (r, a') = renew_hosting (envs a.owner_id) (charges a.owner_id) a in
    if needs_retry now a then (counts_as_retried r + n, a' ∷ db') else (n, a ∷ db')
