-- ===== src/Billing/Events.antt =====
-- Webhook events of apps/api/app/services/self_manager.py: which accounts an invoice event changes.
use replica_ai.Common.{
  ℕ, ◌≡◌, ◌≢◌, refl, String, Bool, true, false, Option, some, List, [], ◌∷◌, arith, truthy,
  or_default, first, update_where, eq_iff, Bool-cases, Option-cases, inl, inr,
}
use replica_ai.Billing.Account.{Account, BillingConfig, Env}
use replica_ai.Billing.Webhook.{
  payment_succeeded, payment_failed, FinalizationError, absent, null, object, verified, is_owner,
  has_billing, with_billing, on_payment_succeeded, on_payment_failed, record_failure,
  handle_stripe_webhook,
}

first-update_where_other :
    (j : String) (test : Account → Bool) (change : Account → Account)
    → ((a : Account) → is_owner j a ≡ true → test a ≡ false)
    → ((a : Account) → is_owner j (change a) ≡ is_owner j a)
    → (db : List Account) → first (is_owner j) (update_where test change db) ≡ first (is_owner j) db
first-update_where_other j test change apart keep [] = refl
first-update_where_other j test change apart keep (a ∷ db) =
    let rest = first-update_where_other j test change apart keep db in
    ground (arith, apart a, keep a, rest)

not_theirs : (j o : String) → o ≢ j → (a : Account) → is_owner j a ≡ true → has_billing o a ≡ false
unfolding has_billing
not_theirs j o ne a h = ground (arith, eq_iff a.owner_id j, eq_iff a.owner_id o)

owner-with_billing :
    (j : String) (change : BillingConfig → Account → Account)
    → ((c : BillingConfig) (a : Account) → (change c a).owner_id ≡ a.owner_id)
    → (a : Account) → is_owner j (with_billing change a) ≡ is_owner j a
unfolding is_owner
owner-with_billing j change keep a = elim (Option-cases a.billing) [
  | inl e ↦ ground arith
  | inr (c, e) ↦ ground (arith, keep c a)
]

owner-on_payment_succeeded :
    (env : Env) (intent : Option String) (cents : ℕ) (c : BillingConfig) (a : Account)
    → (on_payment_succeeded env intent cents c a).owner_id ≡ a.owner_id
unfolding on_payment_succeeded
owner-on_payment_succeeded env intent cents c a = refl

owner-on_payment_failed :
    (env : Env) (intent : Option String) (cents : ℕ) (message : String) (c : BillingConfig)
    (a : Account)
    → (on_payment_failed env intent cents message c a).owner_id ≡ a.owner_id
unfolding on_payment_failed
owner-on_payment_failed env intent cents message c a = ground arith

paid_isolated :
    (env : Env) (o j : String) (intent : Option String) (cents : ℕ) (db : List Account)
    → o ≢ j
    → first
        (is_owner j)
        (update_where (has_billing o) (with_billing (on_payment_succeeded env intent cents)) db)
      ≡ first (is_owner j) db
paid_isolated env o j intent cents db ne =
    first-update_where_other j (has_billing o)
      (with_billing (on_payment_succeeded env intent cents)) (not_theirs j o ne)
      (owner-with_billing j (on_payment_succeeded env intent cents)
        (owner-on_payment_succeeded env intent cents))
      db

failed_isolated :
    (env : Env) (o j : String) (intent : Option String) (cents : ℕ) (message : String)
    (db : List Account)
    → o ≢ j
    → first (is_owner j) (
        update_where (has_billing o) (with_billing (on_payment_failed env intent cents message)) db)
      ≡ first (is_owner j) db
failed_isolated env o j intent cents message db ne =
    first-update_where_other j (has_billing o)
      (with_billing (on_payment_failed env intent cents message)) (not_theirs j o ne)
      (owner-with_billing j (on_payment_failed env intent cents message)
        (owner-on_payment_failed env intent cents message))
      db

record_failure_isolated :
    (env : Env) (o j : String) (intent : Option String) (cents : ℕ) (failure : FinalizationError)
    (db : List Account)
    → o ≢ j
    → first (is_owner j) (record_failure env intent cents o failure db).1 ≡ first (is_owner j) db
unfolding record_failure
record_failure_isolated env o j intent cents absent db ne =
    ground (arith, failed_isolated env o j intent cents "Payment failed" db ne)
record_failure_isolated env o j intent cents null db ne = ground arith
record_failure_isolated env o j intent cents (object m) db ne =
    ground (arith, failed_isolated env o j intent cents (or_default "Payment failed" m) db ne)

-- An invoice event of one owner, of either kind, leaves the account found for any other owner as
-- it was, also when the handler raises.
pub invoice_isolated :
    (env : Env) (o j : String) (intent : Option String) (cents : ℕ) (failure : FinalizationError)
    (db : List Account)
    → o ≢ j
    → let paid = verified (payment_succeeded (some o) intent cents) in
      let failed = verified (payment_failed (some o) intent cents failure) in
      (first (is_owner j) (handle_stripe_webhook env paid db).1 ≡ first (is_owner j) db)
      × (first (is_owner j) (handle_stripe_webhook env failed db).1 ≡ first (is_owner j) db)
unfolding handle_stripe_webhook
invoice_isolated env o j intent cents failure db ne = elim (Bool-cases (truthy (some o))) [
  | inl e ↦ simp e (
    paid_isolated env o j intent cents db ne,
    record_failure_isolated env o j intent cents failure db ne,
  )
  | inr e ↦ simp e (refl, refl)
]
