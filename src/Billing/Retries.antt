-- ===== src/Billing/Retries.antt =====
-- What a renewal of apps/api/app/services/self_manager.py does on each outcome of the charge, and
-- how failures lead to retries and to survival mode.
use replica_ai.Common.{
  ◌+◌, ◌≡◌, refl, String, true, false, none, some, List, [], ◌∷◌, ◌++◌, arith, map, All,
  if◌then◌else◌, truthy, ltb, ◌&&◌,
}
use replica_ai.Common.Time.{days}
use replica_ai.Common.Raise.{ok, err, value_error}
use replica_ai.Billing.Account.{
  Account, BillingConfig, Env, PaymentStatus, LlmConfig, deactivate, map_option, disable_browsing,
}
use replica_ai.Billing.Renewal.{Charge, renew_hosting, renewal_log}
use replica_ai.Billing.Invariant.{IsConsistent}

-- A payment method is on file, and the owner pays automatically.
pub record CanPay (c : BillingConfig) : Type 0 where
  pub on_file : truthy c.stripe_customer_id ≡ true
  pub consents : c.auto_pay_hosting ≡ true

-- A charge that goes through, from any sound account that can pay: the intent is returned, one
-- succeeded payment is logged, the hosting runs for 30 days from now, no failure is counted, no
-- retry is due, and survival mode is over.
pub renewal_succeeds :
    (env : Env) (intent : String) (a : Account) (c : BillingConfig)
    → a.billing ≡ some c
    → IsConsistent c
    → CanPay c
    → let (r, b) = renew_hosting env (Charge.charged intent) a in
      (r ≡ ok intent)
      × (b.payments ≡ a.payments ++ renewal_log env (some intent) PaymentStatus.succeeded none ∷ [])
      × (b.billing
          ≡ some (record c {
            hosting_expires_at = some (env.now + days 30);
            survival_mode = false;
            survival_mode_entered_at = none;
            last_payment_at = some env.now;
            payment_retry_count = 0;
            next_retry_at = none;
          }))
unfolding renew_hosting
renewal_succeeds env intent a c e h p = ground arith

-- Without a customer, or without automatic payment, the outcome of a charge does not matter: a
-- `ValueError` with the first missing condition is raised, and the account is as before.
pub renewal_refused :
    (env : Env) (charge : Charge) (a : Account) (c : BillingConfig)
    → a.billing ≡ some c
    → truthy c.stripe_customer_id && c.auto_pay_hosting ≡ false
    → renew_hosting env charge a ≡ (
      err (
          value_error (
            if truthy c.stripe_customer_id
            then "Auto-pay is disabled."
            else "No payment method on file.")),
      a,
    )
unfolding renew_hosting
renewal_refused env charge a c e h = ground arith

-- One declined charge, below the limit: the failure is counted, and a retry is set that many days
-- ahead; survival mode does not start.
declined_early :
    (env : Env) (message : String) (a : Account) (c : BillingConfig)
    → a.billing ≡ some c
    → CanPay c
    → ltb (c.payment_retry_count + 1) 3 ≡ true
    → (renew_hosting env (Charge.declined message) a).1.billing
      ≡ some (record c {
        payment_retry_count = c.payment_retry_count + 1;
        next_retry_at = some (env.now + days (c.payment_retry_count + 1));
      })
unfolding renew_hosting
declined_early env message a c e p h = ground arith

-- From two counted failures on, a declined charge starts survival mode: browsing is off, and no
-- external model is active.
declined_late :
    (env : Env) (message : String) (a : Account) (c : BillingConfig)
    → a.billing ≡ some c
    → CanPay c
    → ltb (c.payment_retry_count + 1) 3 ≡ false
    → let b = (renew_hosting env (Charge.declined message) a).1 in
      (b.billing
        ≡ some (record c {
          payment_retry_count = c.payment_retry_count + 1;
          survival_mode = true;
          survival_mode_entered_at = some env.now;
        }))
      × (b.browse ≡ map_option disable_browsing a.browse)
      × (b.llms ≡ map deactivate a.llms)
unfolding renew_hosting
declined_late env message a c e p h = ground arith

pub deactivate-All : (llms : List LlmConfig) → All (λ l. l.is_active ≡ false) (map deactivate llms)
unfolding deactivate
deactivate-All [] = tt
deactivate-All (l ∷ llms) = (ground arith, deactivate-All llms)

abbrev pub renew_declined : Env → String → Account → Account
renew_declined env message a = (renew_hosting env (Charge.declined message) a).1

-- Three declined charges in a row, from an account that can pay, has no failure counted and is not
-- in survival mode: after the first a retry is set one day ahead, after the second two days ahead,
-- both with survival mode still off; the third starts survival mode at its time, with browsing off
-- and every external model inactive.
pub third_failure_survives :
    (e1 e2 e3 : Env) (m1 m2 m3 : String) (a : Account) (c : BillingConfig)
    → a.billing ≡ some c
    → CanPay c
    → c.payment_retry_count ≡ 0
    → c.survival_mode ≡ false
    → let b1 = renew_declined e1 m1 a in
      let b2 = renew_declined e2 m2 b1 in
      let b3 = renew_declined e3 m3 b2 in
      (b1.billing
        ≡ some (record c {
          payment_retry_count = 1;
          next_retry_at = some (e1.now + days 1);
          survival_mode = false;
        }))
      × (b2.billing
          ≡ some (record c {
            payment_retry_count = 2;
            next_retry_at = some (e2.now + days 2);
            survival_mode = false;
          }))
      × (b3.billing
          ≡ some (record c {
            payment_retry_count = 3;
            next_retry_at = some (e2.now + days 2);
            survival_mode = true;
            survival_mode_entered_at = some e3.now;
          }))
      × (b3.browse ≡ map_option disable_browsing b2.browse)
      × All (λ l. l.is_active ≡ false) b3.llms
third_failure_survives e1 e2 e3 m1 m2 m3 a c e p z off =
    let c1 : BillingConfig = record c {
      payment_retry_count = 1;
      next_retry_at = some (e1.now + days 1);
    } in
    let c2 : BillingConfig = record c {
      payment_retry_count = 2;
      next_retry_at = some (e2.now + days 2);
    } in
    let p1 : CanPay c1 = record { on_file = p.on_file; consents = p.consents } in
    let p2 : CanPay c2 = record { on_file = p.on_file; consents = p.consents } in
    let b1 : Account = renew_declined e1 m1 a in
    let b2 : Account = renew_declined e2 m2 b1 in
    let f1 : b1.billing ≡ some c1 = ground (arith, declined_early e1 m1 a c e p) in
    let f2 : b2.billing ≡ some c2 = declined_early e2 m2 b1 c1 f1 p1 refl in
    let f3 = declined_late e3 m3 b2 c2 f2 p2 refl in
    (ground (arith, f1, off), ground (arith, f2, off), f3.0, f3.1, rw f3.2 (deactivate-All b2.llms))
