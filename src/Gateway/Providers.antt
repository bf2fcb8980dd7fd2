-- ===== src/Gateway/Providers.antt =====
-- Which providers apps/api/app/services/external_llm.py can reach.
use replica_ai.Common.{◌≡◌, refl, String, Bool, true, false, not, Option, some, if-both}
use replica_ai.Common.Raise.{Exception, Result, ok, err, value_error}
use replica_ai.Gateway.Costs.{custom}
use replica_ai.Gateway.Configs.{LlmConfig, check_budget}
use replica_ai.Gateway.Queries.{
  Gateway, Query, Reply, Ledger, query_external, pick_config, call_provider, Completion, account,
  ask, within_budget, with_config,
}

module _ (g : Gateway) (log_id : String) (q : Query) (s : Ledger) where
  abbrev pub Raises : Result Reply × Ledger → Type 0
  Raises r = (e : Exception) × (r ≡ (err e, s))

  Raises-answer :
      (c : LlmConfig) (warning : Option String) (was_sanitized : Bool) (r : Result Completion)
      → ((e : Exception) × (r ≡ err e))
      → Raises (account g log_id q c warning was_sanitized r s)
  Raises-answer c warning was_sanitized r (e, raised) = rw raised (e, refl)

  raises_custom :
      (c : LlmConfig) (key prompt : String)
      → c.provider ≡ custom
      → (e : Exception) × (call_provider g c.provider key c.model_name prompt ≡ err e)
  unfolding call_provider
  raises_custom c key prompt h =
      (value_error "Unsupported provider: custom", rw (h, call_provider) refl)

  Raises-asked :
      (c : LlmConfig) (warning : Option String) (key : Result String)
      → c.provider ≡ custom
      → Raises (ask g log_id q c warning key s)
  Raises-asked c warning (err e) h = (e, refl)
  Raises-asked c warning (ok key) h = Raises-answer c warning _ _ (raises_custom c key _ h)

  Raises-budget :
      (c : LlmConfig) (verdict : Bool × Option String)
      → c.provider ≡ custom
      → Raises (within_budget g log_id q c verdict s)
  Raises-budget c (false, message) h = (_, refl)
  Raises-budget c (true, warning) h = Raises-asked c warning _ h

  Raises-picked : (c : LlmConfig) → c.provider ≡ custom → Raises (with_config g log_id q (some c) s)
  Raises-picked c h =
      if-both Raises (not c.is_active) _ _ (_, refl) (Raises-budget c (check_budget g.alert c) h)

-- A query whose configuration, the named one or the first active one, is of the provider `custom`
-- always raises and writes nothing, also where the owner has other active configurations.
pub custom_raises :
    (g : Gateway) (log_id : String) (q : Query) (s : Ledger) (c : LlmConfig)
    → pick_config q s.configs ≡ some c
    → c.provider ≡ custom
    → (e : Exception) × (query_external g log_id q s ≡ (err e, s))
unfolding query_external
custom_raises g log_id q s c picked h = rw picked (Raises-picked g log_id q s c h)
