-- ===== src/Billing/History.antt =====
-- The invariant through the daily check of apps/api/app/services/self_manager.py, and along every
-- history of one account.
use mathlib.Core.Path.{subst, sym}
use replica_ai.Common.{
  ℕ, ◌≡◌, String, Bool, Option, none, some, List, [], ◌∷◌, arith, All, Option-cases, inl, inr,
  Bool-cases, is_some, leb,
}
use replica_ai.Common.Raise.{Result, ok, err, value_error}
use replica_ai.Billing.Account.{Account, BillingConfig, Env}
use replica_ai.Billing.Hosting.{
  SetupAnswers, Subscription, check_hosting_status, setup_billing, subscribe, cancel_subscription,
  update_auto_pay,
}
use replica_ai.Billing.Renewal.{Charge, renew_hosting}
use replica_ai.Billing.Webhook.{
  on_payment_succeeded, on_payment_failed, with_billing, end_subscription,
}
use replica_ai.Billing.Preservation.{
  survival_check, check_survival, after_retry, after_renewal, check_config, check_single_owner,
  daily_check, check_hosting_retries, needs_retry, update_survival_config,
}
use replica_ai.Billing.Invariant.{
  IsConsistent, IsConsistentRow, IsSound, renew_hosting-IsSound, check_hosting_status-IsSound,
  setup_billing-IsSound, subscribe-IsSound, cancel_subscription-IsSound, update_auto_pay-IsSound,
}
use replica_ai.Billing.Soundness.{
  with_billing-IsSound, on_payment_succeeded-IsSound, on_payment_failed-IsSound,
  end_subscription-IsSound,
}

-- The countdown only reads the billing row.
billing-survival_check :
    (now : ℕ) (env : Env) (c : BillingConfig) (a : Account)
    → (survival_check now env c a).1.billing ≡ a.billing
unfolding survival_check
billing-survival_check now env c a = ground arith

survival_check-IsSound :
    (now : ℕ) (env : Env) (c : BillingConfig) (a : Account)
    → IsSound a
    → IsSound (survival_check now env c a).1
survival_check-IsSound now env c a h = rw (billing-survival_check now env c a) h

check_survival-IsSound :
    (now : ℕ) (env : Env) (a : Account) → IsSound a → IsSound (check_survival now env a).1
unfolding check_survival
check_survival-IsSound now env a h = elim (Option-cases a.billing) [
  | inl e ↦ ground arith
  | inr (c, e) ↦ ground (arith, survival_check-IsSound now env c a h)
]

after_retry-IsSound : (r : Result String) (a : Account) → IsSound a → IsSound (after_retry (r, a)).1
unfolding after_retry
after_retry-IsSound (ok _) a h = h
after_retry-IsSound (err (value_error _)) a h = h
after_retry-IsSound (err _) a h = h

after_renewal-IsSound :
    (now : ℕ) (env : Env) (r : Result String) (a : Account)
    → IsSound a
    → IsSound (after_renewal now env (r, a)).1
unfolding after_renewal
after_renewal-IsSound now env (ok _) a h = h
after_renewal-IsSound now env (err (value_error _)) a h = check_survival-IsSound now env a h
after_renewal-IsSound now env (err _) a h = h

check_config-IsSound :
    (now : ℕ) (env : Env) (charge : Charge) (c : BillingConfig) (a : Account)
    → IsSound a
    → IsSound (check_config now env charge c a).1
unfolding check_config
check_config-IsSound now env charge c a h =
    let (r, a') = renew_hosting env charge a in
    let kept : IsSound a' = renew_hosting-IsSound env charge a h in
    ground (
      arith,
      after_retry-IsSound r a' kept,
      after_renewal-IsSound now env r a' kept,
      survival_check-IsSound now env c a h,
    )

pub check_single_owner-IsSound :
    (now : ℕ) (env : Env) (charge : Charge) (a : Account)
    → IsSound a
    → IsSound (check_single_owner now env charge a).1
unfolding check_single_owner
check_single_owner-IsSound now env charge a h = elim (Option-cases a.billing) [
  | inl e ↦ ground arith
  | inr (c, e) ↦ ground (arith, check_config-IsSound now env charge c a h)
]

daily_check-All :
    (now : ℕ) (envs : String → Env) (charges : String → Charge) (db : List Account)
    → All IsSound db
    → All IsSound (daily_check now envs charges db).1
unfolding daily_check
daily_check-All now envs charges [] h = tt
daily_check-All now envs charges (a ∷ db) h = (
  check_single_owner-IsSound now (envs a.owner_id) (charges a.owner_id) a h.0,
  daily_check-All now envs charges db h.1,
)

check_hosting_retries-All :
    (now : ℕ) (envs : String → Env) (charges : String → Charge) (db : List Account)
    → All IsSound db
    → All IsSound (check_hosting_retries now envs charges db).1
unfolding check_hosting_retries
check_hosting_retries-All now envs charges [] h = tt
check_hosting_retries-All now envs charges (a ∷ db) h = elim (Bool-cases (needs_retry now a)) [
  | inl e ↦ rw e (
    renew_hosting-IsSound (envs a.owner_id) (charges a.owner_id) a h.0,
    check_hosting_retries-All now envs charges db h.1,
  )
  | inr e ↦ rw e (h.0, check_hosting_retries-All now envs charges db h.1)
]

-- Both background passes over all accounts, whatever Stripe answers for each owner, leave every
-- account with survival mode on exactly when at least three failures are counted, and with a
-- recorded start of survival mode exactly while it is on, if the accounts were so before.
pub background-All :
    (now : ℕ) (envs : String → Env) (charges : String → Charge) (db : List Account)
    → All IsSound db
    → All IsSound (daily_check now envs charges db).1
      × All IsSound (check_hosting_retries now envs charges db).1
background-All now envs charges db h =
    (daily_check-All now envs charges db h, check_hosting_retries-All now envs charges db h)

-- One call on an account, with what it gets from outside.
pub data Step (a : Account) : Account → Type 0 where
  status : (env : Env) → Step a (check_hosting_status env a).1
  setup : (env : Env) (s : SetupAnswers) → Step a (setup_billing env s a).1
  subscribed : (env : Env) (r c : Result Subscription) → Step a (subscribe env r c a).1
  cancelled : (env : Env) (m : Result (Unit {0})) → Step a (cancel_subscription env m a).1
  auto_pay : (env : Env) (h l : Option Bool) → Step a (update_auto_pay env h l a).1
  renewed : (env : Env) (charge : Charge) → Step a (renew_hosting env charge a).1
  checked : (now : ℕ) (env : Env) (charge : Charge) → Step a (check_single_owner now env charge a).1
  invoice_paid :
      (env : Env) (intent : Option String) (cents : ℕ)
      → Step a (with_billing (on_payment_succeeded env intent cents) a)
  invoice_failed :
      (env : Env) (intent : Option String) (cents : ℕ) (message : String)
      → Step a (with_billing (on_payment_failed env intent cents message) a)
  survival_updated :
      (env : Env) (g : Option ℕ) (f w n : Option Bool)
      → Step a (update_survival_config env g f w n a).1
  deleted : Step a (with_billing end_subscription a)

pub data Reach (a : Account) : Account → Type 0 where
  here : Reach a a
  next : {b c : Account} → Reach a b → Step b c → Reach a c

update_survival_config-IsSound :
    (env : Env) (g : Option ℕ) (f w n : Option Bool) (a : Account)
    → IsSound a
    → IsSound (update_survival_config env g f w n a).1
unfolding update_survival_config
update_survival_config-IsSound env g f w n a h = ground arith

Step-IsSound : {a b : Account} → Step a b → IsSound a → IsSound b
Step-IsSound {a} (status env) h = check_hosting_status-IsSound env a h
Step-IsSound {a} (setup env s) h = setup_billing-IsSound env s a h
Step-IsSound {a} (subscribed env r c) h = subscribe-IsSound env r c a h
Step-IsSound {a} (cancelled env m) h = cancel_subscription-IsSound env m a h
Step-IsSound {a} (auto_pay env t l) h = update_auto_pay-IsSound env t l a h
Step-IsSound {a} (renewed env charge) h = renew_hosting-IsSound env charge a h
Step-IsSound {a} (checked now env charge) h = check_single_owner-IsSound now env charge a h
Step-IsSound {a} (invoice_paid env intent cents) h =
    with_billing-IsSound (on_payment_succeeded env intent cents)
      (on_payment_succeeded-IsSound env intent cents) a h
Step-IsSound {a} (invoice_failed env intent cents message) h =
    with_billing-IsSound (on_payment_failed env intent cents message)
      (on_payment_failed-IsSound env intent cents message) a h
Step-IsSound (survival_updated env g f w n) h = update_survival_config-IsSound env g f w n _ h
Step-IsSound {a} deleted h = with_billing-IsSound end_subscription end_subscription-IsSound a h

Reach-keeps : {a b : Account} → Reach a b → IsSound a → IsSound b
Reach-keeps here h = h
Reach-keeps (next r s) h = Step-IsSound s (Reach-keeps r h)

-- From an account with no billing row, along any sequence of billing calls, webhook events and
-- daily checks with any answers from Stripe: when a billing row is there, it is in survival mode
-- exactly if at least three failures are counted, and it has a survival start exactly if it is in
-- survival mode.
pub Reach-IsSound :
    {a b : Account}
    → Reach a b
    → a.billing ≡ none
    → (c : BillingConfig) → b.billing ≡ some c
    → (c.survival_mode ≡ leb 3 c.payment_retry_count)
      × (is_some c.survival_mode_entered_at ≡ c.survival_mode)
Reach-IsSound r e c f =
    let k : IsConsistent c =
      subst IsConsistentRow f (Reach-keeps r (subst IsConsistentRow (sym e) tt)) in
    (k.survives, k.entered)
