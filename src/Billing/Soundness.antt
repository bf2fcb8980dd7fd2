-- ===== src/Billing/Soundness.antt =====
-- The invariant through the webhook, the daily check and the retries of
-- apps/api/app/services/self_manager.py, and along every history of one account.
use replica_ai.Common.{
  ℕ, String, Bool, Option, none, some, or_default, List, [], ◌∷◌, inl, inr, arith, All,
  update_where, Bool-cases, count, zero, suc, truthy, first, is_some,
}
use replica_ai.Common.Raise.{Result, ok, err}
use replica_ai.Billing.Account.{Account, BillingConfig, Env}
use replica_ai.Billing.Webhook.{
  StripeEvent, payment_succeeded, payment_failed, subscription_deleted, other, Verification,
  verified, rejected, FinalizationError, on_payment_succeeded, on_payment_failed, with_billing,
  end_subscription, dispatch, handle_stripe_webhook, has_billing, has_customer, delete_subscription,
  record_failure, failure_message, change_row,
}
use replica_ai.Billing.Invariant.{IsConsistent, IsConsistentRow, IsSound}

pub on_payment_succeeded-IsSound :
    (env : Env) (intent : Option String) (cents : ℕ) (c : BillingConfig) (a : Account)
    → IsConsistent c
    → IsSound (on_payment_succeeded env intent cents c a)
unfolding on_payment_succeeded
on_payment_succeeded-IsSound env intent cents c a h = ground arith

pub on_payment_failed-IsSound :
    (env : Env) (intent : Option String) (cents : ℕ) (message : String) (c : BillingConfig)
    (a : Account)
    → IsConsistent c
    → IsSound (on_payment_failed env intent cents message c a)
unfolding on_payment_failed
on_payment_failed-IsSound env intent cents message c a h = ground arith

pub end_subscription-IsSound :
    (c : BillingConfig) (a : Account) → IsConsistent c → IsSound (end_subscription c a)
unfolding end_subscription
end_subscription-IsSound c a h = ground arith

-- A change that keeps the accounts with a row sound keeps every account sound.
change_row-IsSound :
    (change : BillingConfig → Account → Account)
    → ((c : BillingConfig) (a : Account) → IsConsistent c → IsSound (change c a))
    → (row : Option BillingConfig) (a : Account) → IsConsistentRow row
    → IsSound a
    → IsSound (change_row change row a)
change_row-IsSound change keep none a r h = h
change_row-IsSound change keep (some c) a r h = keep c a r

pub with_billing-IsSound :
    (change : BillingConfig → Account → Account)
    → ((c : BillingConfig) (a : Account) → IsConsistent c → IsSound (change c a))
    → (a : Account) → IsSound a
    → IsSound (with_billing change a)
with_billing-IsSound change keep a h = change_row-IsSound change keep a.billing a h h

update_where-All :
    (P : Account → Type 0) (test : Account → Bool) (change : Account → Account)
    → ((a : Account) → P a → P (change a))
    → (db : List Account) → All P db
    → All P (update_where test change db)
update_where-All P test change keep [] h = h
update_where-All P test change keep (a ∷ db) h = elim (Bool-cases (test a)) [
  | inl e ↦ rw e (keep a h.0, update_where-All P test change keep db h.1)
  | inr e ↦ rw e (h.0, update_where-All P test change keep db h.1)
]

change_where-All :
    (test : Account → Bool) (change : BillingConfig → Account → Account)
    → ((c : BillingConfig) (a : Account) → IsConsistent c → IsSound (change c a))
    → (db : List Account) → All IsSound db
    → All IsSound (update_where test (with_billing change) db)
change_where-All test change keep =
    update_where-All IsSound test (with_billing change) (with_billing-IsSound change keep)

record_failure-All :
    (env : Env) (intent : Option String) (cents : ℕ) (owner_id : String)
    (failure : FinalizationError) (db : List Account)
    → All IsSound db
    → All IsSound (record_failure env intent cents owner_id failure db).1
unfolding record_failure
record_failure-All env intent cents owner_id failure db h = elim (Bool-cases known) [
  | inr e ↦ rw e h
  | inl e ↦ rw e (by_message (failure_message failure))
]
  where
    known : Bool
    known = is_some (first (has_billing owner_id) db)

    by_message :
        (m : Result String)
        → All IsSound
            (elim m as (λ _. Result (Unit {0}) × List Account) [
              | err x ↦ (err x, db)
              | ok message ↦ (
                ok tt,
                update_where
                    (has_billing owner_id)
                    (with_billing (on_payment_failed env intent cents message))
                    db,
              )
            ]).1
    by_message (err x) = h
    by_message (ok message) =
        change_where-All (has_billing owner_id) (on_payment_failed env intent cents message)
          (on_payment_failed-IsSound env intent cents message) db h

delete_subscription-All :
    (n : ℕ) (customer : String) (db : List Account)
    → All IsSound db
    → All IsSound (delete_subscription n customer db).1
unfolding delete_subscription
delete_subscription-All zero customer db h = h
delete_subscription-All (suc zero) customer db h =
    change_where-All (has_customer customer) end_subscription end_subscription-IsSound db h
delete_subscription-All (suc (suc n)) customer db h = h

dispatch-All :
    (env : Env) (event : StripeEvent) (db : List Account)
    → All IsSound db
    → All IsSound (dispatch env event db).1
unfolding dispatch
dispatch-All env (payment_succeeded owner intent cents) db h = elim (Bool-cases (truthy owner)) [
  | inl e ↦ rw e (
      change_where-All (has_billing (or_default "" owner)) (on_payment_succeeded env intent cents)
        (on_payment_succeeded-IsSound env intent cents) db h)
  | inr e ↦ rw e h
]
dispatch-All env (payment_failed owner intent cents failure) db h =
    elim (Bool-cases (truthy owner)) [
      | inl e ↦ rw e (record_failure-All env intent cents (or_default "" owner) failure db h)
      | inr e ↦ rw e h
    ]
dispatch-All env (subscription_deleted customer) db h =
    delete_subscription-All (count (has_customer customer) db) customer db h
dispatch-All env (other name) db h = h

-- Every webhook call, verified or rejected, raising or not, leaves every account with survival
-- mode on exactly when at least three failures are counted, and with a recorded start of survival
-- mode exactly while it is on, if the accounts were so before.
pub handle_stripe_webhook-IsSound :
    (env : Env) (v : Verification) (db : List Account)
    → All IsSound db
    → All IsSound (handle_stripe_webhook env v db).1
unfolding handle_stripe_webhook
handle_stripe_webhook-IsSound env (rejected reason) db h = h
handle_stripe_webhook-IsSound env (verified event) db h = dispatch-All env event db h
