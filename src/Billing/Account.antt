-- ===== src/Billing/Account.antt =====
-- One owner's rows of the billing tables (apps/api/app/models/owner.py), and the parts of
-- apps/api/app/services/self_manager.py that read or create single rows.
use replica_ai.Common.{ℕ, String, Bool, true, false, Option, none, some, List, map, if◌then◌else◌}

pub data PaymentStatus : Type 0 where
  succeeded failed pending refunded : PaymentStatus

-- `amount_usd`: the monthly price of the settings, or an amount of cents that Stripe reports,
-- divided by 100. The floats themselves are not computed.
pub data Amount : Type 0 where
  monthly_cost : Amount
  of_cents : ℕ → Amount

pub record PaymentLog : Type 0 where
  pub id : String
  pub stripe_payment_id : Option String
  pub amount_usd : Amount
  pub description : String
  pub status : PaymentStatus
  pub error_message : Option String

pub record BillingConfig : Type 0 where
  pub id : String
  pub stripe_customer_id : Option String
  pub stripe_subscription_id : Option String
  pub card_last_four : Option String
  pub card_brand : Option String
  pub hosting_expires_at : Option ℕ
  pub auto_pay_hosting : Bool
  pub auto_pay_llm : Bool
  pub survival_mode : Bool
  pub survival_mode_entered_at : Option ℕ
  pub last_payment_at : Option ℕ
  pub payment_retry_count : ℕ
  pub next_retry_at : Option ℕ

pub record SurvivalConfig : Type 0 where
  pub id : String
  pub grace_period_days : ℕ
  pub notify_family : Bool
  pub weekly_reminders : Bool
  pub never_shutdown_with_family : Bool

pub record BrowseConfig : Type 0 where
  pub enabled : Bool
  pub auto_summarize : Bool
  pub max_pages_per_day : ℕ

pub record LlmConfig : Type 0 where
  pub id : String
  pub is_active : Bool

pub record AccessRule : Type 0 where
  pub id : String
  pub is_active : Bool

-- The rows that carry one owner's `owner_id`. Each of the `Option` tables has a unique owner.
pub record Account : Type 0 where
  pub owner_id : String
  pub billing : Option BillingConfig
  pub survival : Option SurvivalConfig
  pub browse : Option BrowseConfig
  pub llms : List LlmConfig
  pub rules : List AccessRule
  pub payments : List PaymentLog

-- What a call takes from outside: the clock, and the identifiers that it generates.
pub record Env : Type 0 where
  pub now : ℕ
  pub config_id : String
  pub survival_id : String
  pub log_id : String

-- `BillingConfig(id=…, owner_id=…)`: the column defaults.
unfoldable pub new_billing_config : String → BillingConfig
new_billing_config new_id = record {
  id = new_id;
  stripe_customer_id = none;
  stripe_subscription_id = none;
  card_last_four = none;
  card_brand = none;
  hosting_expires_at = none;
  auto_pay_hosting = false;
  auto_pay_llm = false;
  survival_mode = false;
  survival_mode_entered_at = none;
  last_payment_at = none;
  payment_retry_count = 0;
  next_retry_at = none;
}

unfoldable pub new_survival_config : String → SurvivalConfig
new_survival_config new_id = record {
  id = new_id;
  grace_period_days = 30;
  notify_family = true;
  weekly_reminders = true;
  never_shutdown_with_family = true;
}

abbrev pub existing_or {ℓ} : {A : Type ℓ} → Option A → A → A
existing_or none d = d
existing_or (some a) d = a

-- `HostingManager.ensure_billing_config`: the row, and the account that now has it.
unfoldable pub ensure_billing_config : Env → Account → BillingConfig × Account
unfolding new_billing_config
ensure_billing_config env a =
    let config = existing_or a.billing (new_billing_config env.config_id) in
    (config, record a { billing = some config })

-- `SelfPreservation.get_survival_config`
unfoldable pub get_survival_config : Env → Account → SurvivalConfig × Account
unfolding new_survival_config
get_survival_config env a =
    let config = existing_or a.survival (new_survival_config env.survival_id) in
    (config, record a { survival = some config })

abbrev pub disable_browsing : BrowseConfig → BrowseConfig
disable_browsing b = record b { enabled = false }

abbrev pub map_option : {A : Type 0} → (A → A) → Option A → Option A
map_option f none = none
map_option f (some a) = some (f a)

-- Only active rows are selected and written.
unfoldable pub deactivate : LlmConfig → LlmConfig
deactivate c = if c.is_active then record c { is_active = false } else c

-- `HostingManager._enter_survival_mode` on the row `c` of the account.
unfoldable pub enter_survival_mode : ℕ → BillingConfig → Account → Account
enter_survival_mode now c a = record a {
  billing = some (record c { survival_mode = true; survival_mode_entered_at = some now });
  browse = map_option disable_browsing a.browse;
  llms = map deactivate a.llms;
}

-- `HostingManager._exit_survival_mode`
unfoldable pub exit_survival_mode : BillingConfig → BillingConfig
exit_survival_mode c = record c {
  survival_mode = false;
  survival_mode_entered_at = none;
  payment_retry_count = 0;
  next_retry_at = none;
}

-- `if config.survival_mode: await _exit_survival_mode(config, db)`
unfoldable pub exit_if_surviving : BillingConfig → BillingConfig
unfolding exit_survival_mode
exit_if_surviving c = if c.survival_mode then exit_survival_mode c else c
