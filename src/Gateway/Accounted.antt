-- ===== src/Gateway/Accounted.antt =====
-- What a query of apps/api/app/services/external_llm.py costs, and what it writes.
use replica_ai.Common.{
  ◌<◌, ◌≡◌, refl, arith, String, Bool, true, false, not, Option, none, some, [], ◌∷◌, ◌++◌, ◌⊎◌,
  inl, inr, if-cases, Bool-cases, update_first, ltb,
}
use replica_ai.Common.Raise.{Exception, Result, ok, err}
use replica_ai.Gateway.Configs.{LlmConfig, UsageLog, Alert, has_id, check_budget, spend}
use replica_ai.Gateway.Queries.{
  Gateway, Query, Reply, Ledger, Completion, query_external, with_config, within_budget, ask,
  account, pick_config, record_usage, disabled,
}

-- The money of a month is not spent yet, where there is a limit.
pub data HasBudget (c : LlmConfig) : Type 0 where
  unlimited : c.monthly_budget ≡ 0 → HasBudget c
  left_over : c.spent_this_month < c.monthly_budget → HasBudget c

-- A query that raised and wrote nothing, or one that the configuration had the budget for, whose log
-- has the cost that was added to what the configuration has spent, and to no other one's.
abbrev pub Accounted : Query → Ledger → Result Reply × Ledger → Type 0
Accounted q s (r, s') =
    ((e : Exception) × (r ≡ err e) × (s' ≡ s))
    ⊎ ((c : LlmConfig) × (log : UsageLog) × (reply : Reply) × (r ≡ ok reply)
        × (pick_config q s.configs ≡ some c)
        × (c.is_active ≡ true)
        × HasBudget c
        × (log.cost ≡ reply.cost)
        × (s'.logs ≡ s.logs ++ log ∷ [])
        × (s'.configs ≡ update_first (has_id c.id) (spend reply.cost) s.configs))

budget_passed : (a : Alert) (c : LlmConfig) → (check_budget a c).0 ≡ true → HasBudget c
unfolding check_budget
budget_passed a c h = elim (Bool-cases (ltb 0 c.monthly_budget)) [
  | inr zero ↦ unlimited (ground arith)
  | inl some_limit ↦ left_over (ground arith)
]

not-false : (b : Bool) → not b ≡ false → b ≡ true
not-false b h = ground arith

module _ (g : Gateway) (log_id : String) (q : Query) (s : Ledger) where
  accounted :
      (c : LlmConfig) (warning : Option String) (was_sanitized : Bool) (r : Result Completion)
      → pick_config q s.configs ≡ some c
      → c.is_active ≡ true
      → HasBudget c
      → Accounted q s (account g log_id q c warning was_sanitized r s)
  unfolding record_usage
  accounted c warning was_sanitized (err e) p on b = inl (e, refl, refl)
  accounted c warning was_sanitized (ok a) p on b = inr (c, _, _, refl, p, on, b, refl, refl, refl)

  asked :
      (c : LlmConfig) (warning : Option String) (key : Result String)
      → pick_config q s.configs ≡ some c
      → c.is_active ≡ true
      → HasBudget c
      → Accounted q s (ask g log_id q c warning key s)
  asked c warning (err e) p on b = inl (e, refl, refl)
  asked c warning (ok key) p on b = accounted c warning _ _ p on b

  budgeted :
      (c : LlmConfig) (verdict : Bool × Option String)
      → pick_config q s.configs ≡ some c
      → c.is_active ≡ true
      → (verdict.0 ≡ true → HasBudget c)
      → Accounted q s (within_budget g log_id q c verdict s)
  budgeted c (false, message) p on b = inl (_, refl, refl)
  budgeted c (true, warning) p on b = asked c warning _ p on (b refl)

  picked :
      (o : Option LlmConfig)
      → pick_config q s.configs ≡ o
      → Accounted q s (with_config g log_id q o s)
  picked none p = inl (_, refl, refl)
  picked (some c) p =
      if-cases (Accounted q s) (not c.is_active) (err disabled, s)
        (within_budget g log_id q c (check_budget g.alert c) s) (λ off. inl (_, refl, refl))
        (λ on.
          budgeted c (check_budget g.alert c) p (not-false c.is_active on)
            (budget_passed g.alert c))

-- A query either raises and leaves configurations and logs as they were, or it was asked under an
-- active configuration with budget left in this month, and it writes one log whose cost is that of
-- the reply, and adds this cost to what the configuration has spent.
pub query_external-Accounted :
    (g : Gateway) (log_id : String) (q : Query) (s : Ledger)
    → Accounted q s (query_external g log_id q s)
unfolding query_external
query_external-Accounted g log_id q s = picked g log_id q s (pick_config q s.configs) refl
