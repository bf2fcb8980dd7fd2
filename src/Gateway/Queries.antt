-- ===== src/Gateway/Queries.antt =====
-- `query_external` of apps/api/app/services/external_llm.py. The providers, the encryption and the
-- ingestion of what was learned are parameters, as what they answer.
use Prim.Native.String.{◌++◌ as str_append}
use replica_ai.Common.{
  ℕ, String, Bool, true, false, not, ◌&&◌, Option, none, some, List, [], ◌∷◌, ◌++◌, first,
  update_first, str_eq, is_blank, truthy, or_default, if◌then◌else◌,
}
use replica_ai.Common.Raise.{Exception, Result, ok, err, value_error}
use replica_ai.Common.Text.{take_chars}
use replica_ai.Gateway.Costs.{Provider, openai, anthropic, google, custom, estimate_cost}
use replica_ai.Gateway.Sanitizer.{Texts, owner_replacements, sanitize}
use replica_ai.Gateway.Configs.{LlmConfig, UsageLog, Alert, has_id, get_config, check_budget, spend}

pub record Completion : Type 0 where
  pub text : String
  pub prompt_tokens : ℕ
  pub completion_tokens : ℕ

-- The tables of the gateway.
pub record Ledger : Type 0 where
  pub configs : List LlmConfig
  pub logs : List UsageLog

pub record Gateway : Type 0 where
  pub texts : Texts
  pub alert : Alert
  pub rounded : ℕ → ℕ
  pub decrypt : String → Result String
  -- The provider with the key, the model and the prompt.
  pub call : Provider → String → String → String → Result Completion
  pub ingest : String → Result (Unit {0})

pub record Query : Type 0 where
  pub owner_id : String
  pub owner_name : Option String
  pub prompt : String
  pub config_id : Option String
  pub learn : Option Bool

pub record Reply : Type 0 where
  pub response : String
  pub provider : Provider
  pub model : Option String
  pub prompt_tokens : ℕ
  pub completion_tokens : ℕ
  pub cost : ℕ
  pub was_sanitized : Bool
  pub learned : Bool
  pub budget_warning : Option String

abbrev pub no_config : Exception
no_config = value_error "No active external LLM configuration found."

abbrev pub disabled : Exception
disabled = value_error "This LLM provider is disabled."

abbrev pub is_usable : String → LlmConfig → Bool
is_usable owner_id c = str_eq c.owner_id owner_id && c.is_active

-- The configuration that is named, or the first that is active.
unfoldable pub pick_config : Query → List LlmConfig → Option LlmConfig
pick_config q configs =
    if truthy q.config_id
    then get_config (or_default "" q.config_id) q.owner_id configs
    else first (is_usable q.owner_id) configs

abbrev pub provider_name : Provider → String
provider_name openai = "openai"
provider_name anthropic = "anthropic"
provider_name google = "google"
provider_name custom = "custom"

abbrev model_or : String → Option String → String
model_or fallback model = if truthy model then or_default "" model else fallback

-- `_call_provider`
unfoldable pub call_provider :
    Gateway → Provider → String → Option String → String → Result Completion
call_provider g openai key model prompt = g.call openai key (model_or "gpt-4o" model) prompt
call_provider g anthropic key model prompt =
    g.call anthropic key (model_or "claude-sonnet-4-5-20250929" model) prompt
call_provider g google key model prompt =
    g.call google key (model_or "gemini-1.5-flash" model) prompt
call_provider g custom key model prompt = err (value_error "Unsupported provider: custom")

abbrev short : String → Option String
short text = if is_blank text then none else some (take_chars 500 text)

abbrev pub usage_log : String → LlmConfig → String → Bool → Completion → ℕ → UsageLog
usage_log id c prompt was_sanitized a cost = record {
  id = id;
  config_id = c.id;
  owner_id = c.owner_id;
  provider = c.provider;
  prompt_tokens = a.prompt_tokens;
  completion_tokens = a.completion_tokens;
  cost = cost;
  query_text = short prompt;
  response_text = short a.text;
  was_sanitized = was_sanitized;
}

-- `record_usage`
unfoldable pub record_usage : LlmConfig → UsageLog → Ledger → Ledger
record_usage c log s = record {
  configs = update_first (has_id c.id) (spend log.cost) s.configs;
  logs = s.logs ++ log ∷ [];
}

module _ (g : Gateway) (log_id : String) where
  abbrev learned_text : Provider → String → String → String
  learned_text provider prompt response = str_append "[External " (
      str_append (provider_name provider)
        (str_append "] Q: " (str_append prompt (str_append "\nA: " response))))

  -- Whether the response was ingested; a failure is only logged.
  abbrev pub learns : Query → LlmConfig → String → Bool
  learns q c response =
      if or_default c.auto_learn q.learn && not (is_blank response)
      then (elim (g.ingest (learned_text c.provider q.prompt response)) [
        | err e ↦ false
        | ok u ↦ true
      ])
      else false

  abbrev pub cost_of : LlmConfig → Completion → ℕ
  cost_of c a = estimate_cost g.rounded c.provider c.model_name a.prompt_tokens a.completion_tokens

  abbrev pub reply_of : Query → LlmConfig → Option String → Bool → Completion → Reply
  reply_of q c warning was_sanitized a = record {
    response = a.text;
    provider = c.provider;
    model = c.model_name;
    prompt_tokens = a.prompt_tokens;
    completion_tokens = a.completion_tokens;
    cost = cost_of c a;
    was_sanitized = was_sanitized;
    learned = learns q c a.text;
    budget_warning = warning;
  }

  abbrev pub account :
      Query → LlmConfig → Option String → Bool → Result Completion → Ledger → Result Reply × Ledger
  account q c warning was_sanitized (err e) s = (err e, s)
  account q c warning was_sanitized (ok a) s = (
    ok (reply_of q c warning was_sanitized a),
    record_usage c (usage_log log_id c q.prompt was_sanitized a (cost_of c a)) s,
  )

  abbrev pub ask :
      Query → LlmConfig → Option String → Result String → Ledger → Result Reply × Ledger
  ask q c warning (err e) s = (err e, s)
  ask q c warning (ok key) s =
      let (prompt, was_sanitized) = sanitize g.texts (owner_replacements q.owner_name) q.prompt in
      account q c warning was_sanitized (call_provider g c.provider key c.model_name prompt) s

  abbrev pub within_budget :
      Query → LlmConfig → Bool × Option String → Ledger → Result Reply × Ledger
  within_budget q c (false, message) s = (err (value_error (or_default "" message)), s)
  within_budget q c (true, warning) s = ask q c warning (g.decrypt c.api_key_encrypted) s

  abbrev pub with_config : Query → Option LlmConfig → Ledger → Result Reply × Ledger
  with_config q none s = (err no_config, s)
  with_config q (some c) s =
      if not c.is_active then (err disabled, s) else within_budget q c (check_budget g.alert c) s

  unfoldable pub query_external : Query → Ledger → Result Reply × Ledger
  query_external q s = with_config q (pick_config q s.configs) s
