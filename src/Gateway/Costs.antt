-- ===== src/Gateway/Costs.antt =====
-- The cost of a query in apps/api/app/services/external_llm.py. Amounts are whole millionths of a
-- dollar, since a cost is rounded to six places.
use replica_ai.Common.{
  ℕ, ◌+◌, ◌*◌, String, Bool, Option, List, [], ◌∷◌, str_eq, truthy, or_default, if◌then◌else◌,
}
use replica_ai.Common.Text.{take_chars, length_of}

pub data Provider : Type 0 where
  openai anthropic google custom : Provider

-- The price of a thousand tokens of the prompt and of the completion.
pub record Rate : Type 0 where
  pub prompt : ℕ
  pub completion : ℕ

pub record ModelRate : Type 0 where
  pub prefix : String
  pub rate : Rate

abbrev rate_of : ℕ → ℕ → Rate
rate_of prompt completion = record { prompt = prompt; completion = completion }

abbrev model_rate : String → ℕ → ℕ → ModelRate
model_rate prefix prompt completion = record { prefix = prefix; rate = rate_of prompt completion }

-- The entries of `COST_TABLE` but the defaults, in their order.
abbrev pub model_rates : Provider → List ModelRate
model_rates openai =
    model_rate "gpt-4o" 5000 15000
    ∷ model_rate "gpt-4" 30000 60000
    ∷ model_rate "gpt-3.5" 500 1500
    ∷ []
model_rates anthropic =
    model_rate "claude-3-opus" 15000 75000
    ∷ model_rate "claude-3-sonnet" 3000 15000
    ∷ model_rate "claude-3-haiku" 250 1250
    ∷ model_rate "claude-sonnet-4" 3000 15000
    ∷ model_rate "claude-opus-4" 15000 75000
    ∷ []
model_rates google = model_rate "gemini-pro" 250 500 ∷ model_rate "gemini-1.5" 350 1050 ∷ []
model_rates custom = []

abbrev pub default_rate : Provider → Rate
default_rate openai = rate_of 5000 15000
default_rate anthropic = rate_of 3000 15000
default_rate google = rate_of 350 1050
default_rate custom = rate_of 1000 2000

abbrev starts_with : String → String → Bool
starts_with prefix s = str_eq (take_chars (length_of prefix) s) prefix

-- The rate of the first prefix that the model has.
abbrev pub rate_for : String → Rate → List ModelRate → Rate
rate_for model fallback [] = fallback
rate_for model fallback (r ∷ rates) =
    let other = rate_for model fallback rates in
    if starts_with r.prefix model then r.rate else other

-- `_estimate_cost`; `rounded` takes thousandths of the unit to the unit, as `round` does.
unfoldable pub estimate_cost : (ℕ → ℕ) → Provider → Option String → ℕ → ℕ → ℕ
estimate_cost rounded provider model prompt_tokens completion_tokens =
    let fallback = default_rate provider in
    let rate =
      if truthy model
      then rate_for (or_default "" model) fallback (model_rates provider)
      else fallback in
    rounded (prompt_tokens * rate.prompt + completion_tokens * rate.completion)
