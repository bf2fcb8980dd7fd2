-- ===== src/Billing/Attempts.antt =====
-- How often apps/api/app/services/self_manager.py tries to charge: one attempt at most for each
-- daily check, and none again for a retry that was just made.
use replica_ai.Common.{
  ℕ, ◌+◌, ◌≡◌, ◌≤◌, String, Bool, true, false, some, arith, ◌&&◌, if◌then◌else◌, Option-cases, inl,
  inr, List, [], ◌∷◌, length, length-append, truthy, All, Bool-cases, refl, ◌||◌,
}
use replica_ai.Common.Raise.{Result, ok, err, value_error}
use replica_ai.Billing.Account.{Account, BillingConfig, Env}
use replica_ai.Billing.Renewal.{Charge, charged, declined, broken, renew_hosting}
use replica_ai.Billing.Preservation.{
  check_single_owner, check_hosting_retries, is_retry_due, needs_retry, check_survival,
  survival_check, after_retry, after_renewal, check_config, is_renewal_due,
}

-- An attempt that Stripe decides, either way.
abbrev pub is_decided : Charge → Bool
is_decided (charged _) = true
is_decided (declined _) = true
is_decided (broken _) = false

-- The attempts that a renewal logs.
abbrev pub attempts : Charge → BillingConfig → ℕ
attempts charge c =
    if truthy c.stripe_customer_id && c.auto_pay_hosting && is_decided charge then 1 else 0

length-renew_hosting :
    (env : Env) (charge : Charge) (a : Account) (c : BillingConfig)
    → a.billing ≡ some c
    → length (renew_hosting env charge a).1.payments ≡ length a.payments + attempts charge c
unfolding renew_hosting
length-renew_hosting env (charged i) a c e = grind (arith, length-append)
length-renew_hosting env (declined m) a c e = grind (arith, length-append)
length-renew_hosting env (broken m) a c e = ground arith

payments-survival_check :
    (now : ℕ) (env : Env) (c : BillingConfig) (a : Account)
    → (survival_check now env c a).1.payments ≡ a.payments
unfolding survival_check
payments-survival_check now env c a = ground arith

payments-check_survival :
    (now : ℕ) (env : Env) (a : Account) → (check_survival now env a).1.payments ≡ a.payments
unfolding check_survival
payments-check_survival now env a = elim (Option-cases a.billing) [
  | inl e ↦ ground arith
  | inr (c, e) ↦ ground (arith, payments-survival_check now env c a)
]

payments-after_retry :
    (r : Result String) (a : Account) → (after_retry (r, a)).1.payments ≡ a.payments
unfolding after_retry
payments-after_retry (ok _) a = refl
payments-after_retry (err (value_error _)) a = refl
payments-after_retry (err _) a = refl

payments-after_renewal :
    (now : ℕ) (env : Env) (r : Result String) (a : Account)
    → (after_renewal now env (r, a)).1.payments ≡ a.payments
unfolding after_renewal
payments-after_renewal now env (ok _) a = refl
payments-after_renewal now env (err (value_error _)) a = payments-check_survival now env a
payments-after_renewal now env (err _) a = refl

check_config-attempts :
    (now : ℕ) (env : Env) (charge : Charge) (c : BillingConfig) (a : Account)
    → a.billing ≡ some c
    → length (check_config now env charge c a).1.payments
      ≡ length a.payments
        + (if is_retry_due now c || is_renewal_due now c then attempts charge c else 0)
unfolding check_config
check_config-attempts now env charge c a e =
    let (r, a') = renew_hosting env charge a in
    ground (
      arith,
      length-renew_hosting env charge a c e,
      payments-after_retry r a',
      payments-after_renewal now env r a',
      payments-survival_check now env c a,
    )

-- The daily check of an account logs one payment attempt if a retry or a renewal is due, a payment
-- method is on file and Stripe decides the charge, and none otherwise; never two.
pub check_single_owner-attempts :
    (now : ℕ) (env : Env) (charge : Charge) (a : Account) (c : BillingConfig)
    → a.billing ≡ some c
    → length (check_single_owner now env charge a).1.payments
      ≡ length a.payments
        + (if is_retry_due now c || is_renewal_due now c then attempts charge c else 0)
unfolding check_single_owner
check_single_owner-attempts now env charge a c e =
    ground (arith, check_config-attempts now env charge c a e)

-- Stripe decides the account's charge, a payment method is on file, and the payment is made no
-- earlier than the pass began.
abbrev pub Settles : ℕ → (String → Env) → (String → Charge) → Account → Type 0
Settles now envs charges a =
    (c : BillingConfig)
    → a.billing ≡ some c
    → (truthy c.stripe_customer_id ≡ true)
      × (is_decided (charges a.owner_id) ≡ true)
      × (now ≤ (envs a.owner_id).now)

retried_not_due :
    (now : ℕ) (env : Env) (charge : Charge) (a : Account) (c : BillingConfig)
    → a.billing ≡ some c
    → is_retry_due now c ≡ true
    → truthy c.stripe_customer_id ≡ true
    → is_decided charge ≡ true
    → now ≤ env.now
    → needs_retry now (renew_hosting env charge a).1 ≡ false
unfolding renew_hosting needs_retry
retried_not_due now env (charged i) a c e due t d l = ground arith
retried_not_due now env (declined m) a c e due t d l = ground arith
retried_not_due now env (broken m) a c e due t d l = cc

retried-needs_retry :
    (now : ℕ) (envs : String → Env) (charges : String → Charge) (a : Account)
    → Settles now envs charges a
    → needs_retry now a ≡ true
    → needs_retry now (renew_hosting (envs a.owner_id) (charges a.owner_id) a).1 ≡ false
retried-needs_retry now envs charges a h due = elim (Option-cases a.billing) [
  | inl e ↦ unfold needs_retry in ground arith
  | inr (c, e) ↦
      let s = h c e in
      let d : is_retry_due now c ≡ true = unfold needs_retry in ground arith in
      retried_not_due now (envs a.owner_id) (charges a.owner_id) a c e d s.0 s.1 s.2
]

idle_pass :
    (now : ℕ) (envs : String → Env) (charges : String → Charge) (db : List Account)
    → All (λ a. needs_retry now a ≡ false) db
    → check_hosting_retries now envs charges db ≡ (0, db)
unfolding check_hosting_retries
idle_pass now envs charges [] h = refl
idle_pass now envs charges (a ∷ db) h = ground (arith, idle_pass now envs charges db h.1)

first_pass :
    (now : ℕ) (envs : String → Env) (charges : String → Charge) (db : List Account)
    → All (Settles now envs charges) db
    → All (λ a. needs_retry now a ≡ false) (check_hosting_retries now envs charges db).1
unfolding check_hosting_retries
first_pass now envs charges [] h = tt
first_pass now envs charges (a ∷ db) h = elim (Bool-cases (needs_retry now a)) [
  | inl e ↦ rw e (retried-needs_retry now envs charges a h.0 e, first_pass now envs charges db h.1)
  | inr e ↦ rw e (e, first_pass now envs charges db h.1)
]

-- After a retry pass in which Stripe decided every charge and every account has a payment method,
-- a second pass at the same time, with any further answers, charges nobody and changes nothing.
pub second_pass_idle :
    (now : ℕ) (envs envs' : String → Env) (charges charges' : String → Charge) (db : List Account)
    → All (Settles now envs charges) db
    → let db' = (check_hosting_retries now envs charges db).1 in
      check_hosting_retries now envs' charges' db' ≡ (0, db')
second_pass_idle now envs envs' charges charges' db h =
    idle_pass now envs' charges' (check_hosting_retries now envs charges db).1
      (first_pass now envs charges db h)
