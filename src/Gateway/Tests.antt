-- ===== src/Gateway/Tests.antt =====
-- The theorems on apps/api/app/services/external_llm.py at concrete configurations.
use replica_ai.Common.{◌/◌, ◌≡◌, refl, true, false, none, some, [], ◌∷◌}
use replica_ai.Common.Raise.{Exception, ok, err}
use replica_ai.Gateway.Costs.{openai, custom, estimate_cost}
use replica_ai.Gateway.Configs.{LlmConfig}
use replica_ai.Gateway.Queries.{Gateway, Query, Ledger, query_external, pick_config}
use replica_ai.Gateway.Accounted.{Accounted, query_external-Accounted}
use replica_ai.Gateway.Providers.{custom_raises}

abbrev gateway : Gateway
gateway = record {
  texts = record {
    substitute = λ p replacement text. text;
    within = λ x y. false;
    replace = λ original placeholder text. text;
  };
  alert = record { percent = 80; warning = λ spent limit. "Budget warning" };
  rounded = λ n. n / 1000;
  decrypt = λ key. ok key;
  call = λ provider key model prompt.
      ok (record { text = "an answer"; prompt_tokens = 1000; completion_tokens = 2000 });
  ingest = λ text. ok tt;
}

abbrev paid : LlmConfig
paid = record {
  id = "c1";
  owner_id = "ann";
  provider = openai;
  api_key_encrypted = "key";
  model_name = some "gpt-4";
  monthly_budget = 1000000;
  daily_budget = 0;
  spent_this_month = 900000;
  is_active = true;
  auto_learn = false;
}

abbrev own : LlmConfig
own = record paid { id = "c0"; provider = custom }

abbrev query : Query
query = record {
  owner_id = "ann";
  owner_name = some "Ann";
  prompt = "Who was Ada Lovelace?";
  config_id = none;
  learn = none;
}

abbrev ledger : Ledger
ledger = record { configs = paid ∷ []; logs = [] }

query_external-Accounted_example :
    Accounted query ledger (query_external gateway "log" query ledger)
query_external-Accounted_example = query_external-Accounted gateway "log" query ledger

custom_raises_example :
    (e : Exception) × (query_external gateway "log" query
        (record ledger { configs = own ∷ paid ∷ [] })
      ≡ (err e, record ledger { configs = own ∷ paid ∷ [] }))
unfolding pick_config
custom_raises_example =
    custom_raises gateway "log" query (record ledger { configs = own ∷ paid ∷ [] }) own refl refl

-- The price of a query to GPT-4.
price : estimate_cost gateway.rounded openai (some "gpt-4") 1000 2000 ≡ 150000
unfolding estimate_cost
price = refl
