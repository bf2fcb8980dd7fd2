-- ===== src/Family/Legacy.antt =====
-- Legacy mode: `get_legacy_config`, `configure_legacy`, `activate_legacy` and
-- `check_inactivity_triggers` of apps/api/app/services/family_access.py.
use replica_ai.Common.{
  ℕ, ◌+◌, String, Bool, true, false, not, ◌&&◌, Option, none, some, List, [], ◌∷◌, ◌++◌, first,
  update_first, ltb, str_eq, truthy, is_some, or_default, if◌then◌else◌,
}
use replica_ai.Common.Time.{days}
use replica_ai.Common.Raise.{Result, ok, err, value_error}
use replica_ai.Family.Data.{AccessRule}
use replica_ai.Family.Invites.{owned_rule}

-- `LegacyTriggerType`
pub data Trigger : Type 0 where
  manual inactivity trusted_person : Trigger

pub record LegacyConfig : Type 0 where
  pub id : String
  pub owner_id : String
  pub trigger_type : Trigger
  pub inactivity_days : ℕ
  pub trusted_person_rule_id : Option String
  pub is_active : Bool
  pub activated_at : Option ℕ

-- An owner's row, with the time of its last change.
pub record Activity : Type 0 where
  pub id : String
  pub updated_at : ℕ

abbrev pub config_of : String → LegacyConfig → Bool
config_of owner_id c = str_eq c.owner_id owner_id

unfoldable pub is_trusted : Trigger → Bool
is_trusted manual = false
is_trusted inactivity = false
is_trusted trusted_person = true

unfoldable pub is_inactivity : Trigger → Bool
is_inactivity manual = false
is_inactivity inactivity = true
is_inactivity trusted_person = false

unfoldable pub get_legacy_config : String → List LegacyConfig → Option LegacyConfig
get_legacy_config owner_id configs = first (config_of owner_id) configs

unfoldable pub reconfigured : Trigger → ℕ → Option String → LegacyConfig → LegacyConfig
reconfigured trigger idle rule_id c = record c {
  trigger_type = trigger;
  inactivity_days = idle;
  trusted_person_rule_id = rule_id;
}

unfoldable pub new_legacy_config : String → String → Trigger → ℕ → Option String → LegacyConfig
new_legacy_config new_id owner trigger idle rule = record {
  id = new_id;
  owner_id = owner;
  trigger_type = trigger;
  inactivity_days = idle;
  trusted_person_rule_id = rule;
  is_active = false;
  activated_at = none;
}

-- A trusted person must be one of the owner's rules, where one is named.
unfoldable pub lacks_trusted_rule : String → Trigger → Option String → List AccessRule → Bool
unfolding is_trusted
lacks_trusted_rule owner trigger rule_id rules =
    is_trusted trigger
    && truthy rule_id
    && not (is_some (first (owned_rule (or_default "" rule_id) owner) rules))

unfoldable pub configure_legacy :
    String
    → String
    → Trigger
    → ℕ
    → Option String
    → List AccessRule
    → List LegacyConfig
    → Result LegacyConfig × List LegacyConfig
unfolding lacks_trusted_rule reconfigured new_legacy_config
configure_legacy new_id owner trigger idle rule_id rules configs =
    if lacks_trusted_rule owner trigger rule_id rules
    then (err (value_error "Trusted person rule not found"), configs)
    else elim (first (config_of owner) configs) [
      | some c ↦ (
        ok (reconfigured trigger idle rule_id c),
        update_first (config_of owner) (reconfigured trigger idle rule_id) configs,
      )
      | none ↦
          let c = new_legacy_config new_id owner trigger idle rule_id in (ok c, configs ++ c ∷ [])
    ]

unfoldable pub activated : ℕ → LegacyConfig → LegacyConfig
activated now c = record c { is_active = true; activated_at = some now }

-- Whether it was activated now, the message, and the time of the activation.
unfoldable pub activate_legacy :
    ℕ → String → List LegacyConfig → (Bool × String × Option ℕ) × List LegacyConfig
unfolding activated
activate_legacy now owner configs = elim (first (config_of owner) configs) [
  | none ↦ ((false, "Legacy mode not configured. Configure it first.", none), configs)
  | some c ↦
      if c.is_active
      then ((false, "Legacy mode is already active.", c.activated_at), configs)
      else (
        (true, "Legacy mode has been activated.", some now),
        update_first (config_of owner) (activated now) configs,
      )
]

-- `owner.updated_at < now - timedelta(days=…)`
unfoldable pub is_idle : ℕ → ℕ → Option Activity → Bool
is_idle now idle none = false
is_idle now idle (some a) = ltb (a.updated_at + days idle) now

abbrev pub has_activity : String → Activity → Bool
has_activity owner_id a = str_eq a.id owner_id

-- The query's condition with the loop's test.
unfoldable pub is_triggered : ℕ → List Activity → LegacyConfig → Bool
unfolding is_inactivity is_idle
is_triggered now owners c =
    not c.is_active
    && is_inactivity c.trigger_type
    && is_idle now c.inactivity_days (first (has_activity c.owner_id) owners)

-- The number of activations, and the configurations.
unfoldable pub check_inactivity_triggers :
    ℕ → List Activity → List LegacyConfig → ℕ × List LegacyConfig
unfolding is_triggered activated
check_inactivity_triggers now owners [] = (0, [])
check_inactivity_triggers now owners (c ∷ configs) =
    let (n, rest) = check_inactivity_triggers now owners configs in
    if is_triggered now owners c then (n + 1, activated now c ∷ rest) else (n, c ∷ rest)
