-- ===== src/Billing/Tests.antt =====
-- The billing theorems at concrete accounts.
use Prim.Native.Nat.{ℕ, ◌+◌}
use replica_ai.Common.{
  ◌≡◌, refl, String, true, false, Option, none, some, List, [], ◌∷◌, arith, All, first, leb,
  is_some, eq_iff,
}
use replica_ai.Common.Time.{days}
use replica_ai.Common.Raise.{ok}
use replica_ai.Billing.Account.{
  Account, BillingConfig, Env, map_option, disable_browsing, new_billing_config,
  new_survival_config,
}
use replica_ai.Billing.Hosting.{check_hosting_status, update_auto_pay}
use replica_ai.Billing.Renewal.{Charge}
use replica_ai.Billing.Webhook.{
  StripeEvent, FinalizationError, verified, is_owner, handle_stripe_webhook, on_payment_failed,
}
use replica_ai.Billing.Preservation.{check_single_owner, check_hosting_retries, active_family}
use replica_ai.Billing.Invariant.{IsConsistent, IsSound}
use replica_ai.Billing.History.{Step, here, next, Reach-IsSound}
use replica_ai.Billing.Retries.{CanPay, third_failure_survives, renew_declined}
use replica_ai.Billing.Survival.{check-in_survival, failure_restarts_grace}
use replica_ai.Billing.Attempts.{Settles, second_pass_idle}
use replica_ai.Billing.Events.{invoice_isolated}

abbrev at : ℕ → Env
at t = record { now = t; config_id = "b1"; survival_id = "s1"; log_id = "p1" }

-- Three failures are counted, since day 100.
abbrev surviving : BillingConfig
surviving = record {
  id = "b1";
  stripe_customer_id = some "cus_1";
  stripe_subscription_id = none;
  card_last_four = none;
  card_brand = none;
  hosting_expires_at = some (days 98);
  auto_pay_hosting = true;
  auto_pay_llm = false;
  survival_mode = true;
  survival_mode_entered_at = some (days 100);
  last_payment_at = none;
  payment_retry_count = 3;
  next_retry_at = some (days 99);
}

abbrev fresh : BillingConfig
fresh = record surviving {
  survival_mode = false;
  survival_mode_entered_at = none;
  payment_retry_count = 0;
  next_retry_at = none;
}

abbrev retrying : BillingConfig
retrying = record fresh { payment_retry_count = 1; next_retry_at = some (days 101) }

abbrev owner_with : String → Option BillingConfig → Account
owner_with o row = record {
  owner_id = o;
  billing = row;
  survival = none;
  browse = some (record { enabled = true; auto_summarize = true; max_pages_per_day = 50 });
  llms = record { id = "l1"; is_active = true } ∷ record { id = "l2"; is_active = false } ∷ [];
  rules = record { id = "r1"; is_active = false } ∷ [];
  payments = [];
}

abbrev database : List Account
database = owner_with "ann" (some retrying) ∷ owner_with "bob" (some surviving) ∷ []

surviving-IsConsistent : IsConsistent surviving
surviving-IsConsistent = record { survives = refl; entered = refl }

fresh-IsConsistent : IsConsistent fresh
fresh-IsConsistent = record { survives = refl; entered = refl }

database-IsSound : All IsSound database
database-IsSound = (record { survives = refl; entered = refl }, (surviving-IsConsistent, tt))

surviving-CanPay : CanPay surviving
surviving-CanPay = record { on_file = refl; consents = refl }

fresh-CanPay : CanPay fresh
fresh-CanPay = record { on_file = refl; consents = refl }

-- Billing is opened by a change of automatic payment.
abbrev opened : Account
opened = (update_auto_pay (at (days 1)) (some true) none (owner_with "eve" none)).1

abbrev opened_row : BillingConfig
opened_row = record (new_billing_config "b1") { auto_pay_hosting = true }

Reach-IsSound_example :
    (opened_row.survival_mode ≡ leb 3 opened_row.payment_retry_count)
    × (is_some opened_row.survival_mode_entered_at ≡ opened_row.survival_mode)
Reach-IsSound_example =
    Reach-IsSound {a = owner_with "eve" none} {b = opened}
      (next here (Step.auto_pay (at (days 1)) (some true) none)) refl opened_row
      (unfold update_auto_pay new_billing_config in refl)

abbrev ann : Account
ann = owner_with "ann" (some fresh)

third_failure_survives_example :
    let b1 = renew_declined (at (days 99)) "no funds" ann in
    let b2 = renew_declined (at (days 100)) "no funds" b1 in
    let b3 = renew_declined (at (days 102)) "no funds" b2 in
    (b1.billing
      ≡ some (record fresh {
        payment_retry_count = 1;
        next_retry_at = some (days 99 + days 1);
        survival_mode = false;
      }))
    × (b2.billing
        ≡ some (record fresh {
          payment_retry_count = 2;
          next_retry_at = some (days 100 + days 2);
          survival_mode = false;
        }))
    × (b3.billing
        ≡ some (record fresh {
          payment_retry_count = 3;
          next_retry_at = some (days 100 + days 2);
          survival_mode = true;
          survival_mode_entered_at = some (days 102);
        }))
    × (b3.browse ≡ map_option disable_browsing b2.browse)
    × All (λ l. l.is_active ≡ false) b3.llms
third_failure_survives_example =
    third_failure_survives (at (days 99)) (at (days 100)) (at (days 102)) "no funds" "no funds"
      "no funds" ann fresh refl fresh-CanPay refl refl

abbrev bob : Account
bob = owner_with "bob" (some surviving)

check-in_survival_example :
    check_single_owner (days 130) (at (days 130)) (Charge.charged "pi_1") bob
    ≡ (ok true, record bob { survival = some (new_survival_config "s1") })
unfolding new_survival_config active_family
check-in_survival_example =
    check-in_survival (days 130) (at (days 130)) (Charge.charged "pi_1") bob surviving (days 100)
      refl surviving-IsConsistent refl refl

failure_restarts_grace_example :
    let status =
      (check_hosting_status
        (at (days 129))
        (on_payment_failed (at (days 129)) none 999 "no funds" surviving bob)).0 in
    status.survival_days_remaining ≡ some (new_survival_config "s1").grace_period_days
failure_restarts_grace_example =
    failure_restarts_grace (at (days 129)) none 999 "no funds" bob surviving surviving-IsConsistent
      refl

abbrev due : List Account
due = owner_with "ann" (some retrying) ∷ []

due-Settles : All (Settles (days 102) (λ o. at (days 102)) (λ o. Charge.declined "no funds")) due
due-Settles = (λ c e. (ground (arith, e), refl, omega arith), tt)

second_pass_idle_example :
    let db =
      (check_hosting_retries
        (days 102)
        (λ o. at (days 102))
        (λ o. Charge.declined "no funds")
        due).1 in
    check_hosting_retries (days 102) (λ o. at (days 103)) (λ o. Charge.charged "pi_2") db ≡ (0, db)
second_pass_idle_example =
    second_pass_idle (days 102) (λ o. at (days 102)) (λ o. at (days 103))
      (λ o. Charge.declined "no funds") (λ o. Charge.charged "pi_2") due due-Settles

invoice_isolated_example :
    let paid = verified (StripeEvent.payment_succeeded (some "ann") none 999) in
    let failed =
      verified (StripeEvent.payment_failed (some "ann") none 999 FinalizationError.null) in
    (first (is_owner "bob") (handle_stripe_webhook (at (days 120)) paid database).1
      ≡ first (is_owner "bob") database)
    × (first (is_owner "bob") (handle_stripe_webhook (at (days 120)) failed database).1
        ≡ first (is_owner "bob") database)
invoice_isolated_example =
    invoice_isolated (at (days 120)) "ann" "bob" none 999 FinalizationError.null database
      (ground (arith, eq_iff "ann" "bob"))
