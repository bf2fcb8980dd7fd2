-- ===== src/Gateway/Configs.antt =====
-- The configurations of apps/api/app/services/external_llm.py, their budgets, and the usage logs.
-- Encryption is a parameter.
use replica_ai.Common.{
  ℕ, ◌+◌, ◌*◌, String, Bool, true, false, ◌&&◌, Option, none, some, List, [], ◌∷◌, ◌++◌, select,
  first, update_where, delete_first, length, str_eq, truthy, or_default, ltb, leb, if◌then◌else◌,
}
use replica_ai.Gateway.Costs.{Provider}

-- A row of `external_llm_configs`.
pub record LlmConfig : Type 0 where
  pub id : String
  pub owner_id : String
  pub provider : Provider
  pub api_key_encrypted : String
  pub model_name : Option String
  pub monthly_budget : ℕ
  pub daily_budget : ℕ
  pub spent_this_month : ℕ
  pub is_active : Bool
  pub auto_learn : Bool

-- A row of `external_llm_usage_logs`.
pub record UsageLog : Type 0 where
  pub id : String
  pub config_id : String
  pub owner_id : String
  pub provider : Provider
  pub prompt_tokens : ℕ
  pub completion_tokens : ℕ
  pub cost : ℕ
  pub query_text : Option String
  pub response_text : Option String
  pub was_sanitized : Bool

-- The arguments of `create_config`.
pub record NewConfig : Type 0 where
  pub provider : Provider
  pub api_key : String
  pub model_name : Option String
  pub monthly_budget : ℕ
  pub daily_budget : ℕ
  pub auto_learn : Bool

unfoldable pub create_config :
    (String → String) → String → String → NewConfig → List LlmConfig → LlmConfig × List LlmConfig
create_config encrypt id owner_id n configs =
    let c : LlmConfig = record {
      id = id;
      owner_id = owner_id;
      provider = n.provider;
      api_key_encrypted = encrypt n.api_key;
      model_name = n.model_name;
      monthly_budget = n.monthly_budget;
      daily_budget = n.daily_budget;
      spent_this_month = 0;
      is_active = true;
      auto_learn = n.auto_learn;
    } in
    (c, configs ++ c ∷ [])

abbrev pub has_id : String → LlmConfig → Bool
has_id id c = str_eq c.id id

abbrev pub is_config : String → String → LlmConfig → Bool
is_config id owner_id c = str_eq c.id id && str_eq c.owner_id owner_id

unfoldable pub get_config : String → String → List LlmConfig → Option LlmConfig
get_config id owner_id configs = first (is_config id owner_id) configs

-- The values that an update gives; an empty key is no key.
pub record ConfigUpdate : Type 0 where
  pub api_key : Option String
  pub model_name : Option String
  pub monthly_budget : Option ℕ
  pub daily_budget : Option ℕ
  pub is_active : Option Bool
  pub auto_learn : Option Bool

unfoldable pub update_config : (String → String) → ConfigUpdate → LlmConfig → LlmConfig
update_config encrypt u c = record c {
  api_key_encrypted =
      if truthy u.api_key then encrypt (or_default "" u.api_key) else c.api_key_encrypted;
  model_name = elim u.model_name [ none ↦ c.model_name | some name ↦ some name ];
  monthly_budget = or_default c.monthly_budget u.monthly_budget;
  daily_budget = or_default c.daily_budget u.daily_budget;
  is_active = or_default c.is_active u.is_active;
  auto_learn = or_default c.auto_learn u.auto_learn;
}

unfoldable pub delete_config : String → String → List LlmConfig → Bool × List LlmConfig
unfolding get_config
delete_config id owner_id configs = elim (get_config id owner_id configs) [
  | none ↦ (false, configs)
  | some c ↦ (true, delete_first (is_config id owner_id) configs)
]

abbrev pub exhausted : String
exhausted = "Monthly budget exhausted. Queries disabled until next month."

-- `settings.external_llm_budget_alert_pct` in hundredths, and the text of a warning.
pub record Alert : Type 0 where
  pub percent : ℕ
  pub warning : ℕ → ℕ → String

unfoldable pub check_budget : Alert → LlmConfig → Bool × Option String
check_budget a c =
    if ltb 0 c.monthly_budget
    then (if leb c.monthly_budget c.spent_this_month
        then (false, some exhausted)
        else if leb (a.percent * c.monthly_budget) (100 * c.spent_this_month)
        then (true, some (a.warning c.spent_this_month c.monthly_budget))
        else (true, none))
    else (true, none)

abbrev pub spend : ℕ → LlmConfig → LlmConfig
spend cost c = record c { spent_this_month = c.spent_this_month + cost }

abbrev pub has_spent : LlmConfig → Bool
has_spent c = ltb 0 c.spent_this_month

abbrev pub unspent : LlmConfig → LlmConfig
unspent c = record c { spent_this_month = 0 }

unfoldable pub reset_monthly_budgets : List LlmConfig → ℕ × List LlmConfig
reset_monthly_budgets configs =
    (length (select has_spent configs), update_where has_spent unspent configs)
