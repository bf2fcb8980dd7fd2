-- ===== src/Instances.antt =====
-- The registry of model instances: `InstanceRegistry` of
-- apps/api/app/services/instance_manager.py over the table `model_instances` of
-- apps/api/app/models/owner.py. A table is a list of rows; health probes are a parameter.
use replica_ai.Common.{
  ℕ, ◌+◌, String, Bool, true, false, not, ◌&&◌, Option, none, some, List, [], ◌∷◌, ◌++◌, first,
  update_first, update_where, delete_first, count, map, select, truthy, or_default, str_eq, ltb,
  ◌==◌, if◌then◌else◌,
}
use replica_ai.Common.Raise.{Result, ok, err, value_error}
use replica_ai.Common.Time.{seconds}
pub mod Tables
pub mod Primary
pub mod History
pub mod Stale
pub mod Tests

pub data InstanceType : Type 0 where
  cloud local : InstanceType

pub data InstanceStatus : Type 0 where
  active dormant offline : InstanceStatus

-- A row of `model_instances`.
pub record Instance : Type 0 where
  pub id : String
  pub owner_id : String
  pub instance_type : InstanceType
  pub hostname : String
  pub last_sync_at : Option ℕ
  pub status : InstanceStatus
  pub version : String
  pub capabilities : Option (List String)
  pub is_primary : Bool
  pub last_heartbeat_at : Option ℕ
  pub auth_token_hash : Option String
  pub api_url : Option String

-- `_instance_to_response`: the row without its token.
pub record InstanceResponse : Type 0 where
  pub id : String
  pub owner_id : String
  pub instance_type : InstanceType
  pub hostname : String
  pub status : InstanceStatus
  pub version : String
  pub capabilities : Option (List String)
  pub is_primary : Bool
  pub last_heartbeat_at : Option ℕ
  pub api_url : Option String

unfoldable pub instance_to_response : Instance → InstanceResponse
instance_to_response i = record {
  id = i.id;
  owner_id = i.owner_id;
  instance_type = i.instance_type;
  hostname = i.hostname;
  status = i.status;
  version = i.version;
  capabilities = i.capabilities;
  is_primary = i.is_primary;
  last_heartbeat_at = i.last_heartbeat_at;
  api_url = i.api_url;
}

-- The answer of a registration: the instance, and the claims of its token.
pub record Registered : Type 0 where
  pub instance_row : InstanceResponse
  pub subject : String
  pub instance_id : String

-- What one registration draws: the clock, an identifier and the hash of a token.
pub record RegisterEnv : Type 0 where
  pub now : ℕ
  pub new_id : String
  pub token_hash : String

abbrev pub default_capabilities : List String
default_capabilities = "generate" ∷ "embed" ∷ "ingest" ∷ []

-- `capabilities or [...]`
abbrev pub capabilities_or_default : Option (List String) → List String
capabilities_or_default none = default_capabilities
capabilities_or_default (some []) = default_capabilities
capabilities_or_default (some (x ∷ xs)) = x ∷ xs

unfoldable pub new_instance :
    RegisterEnv → String → InstanceType → String → Option String → Option (List String) → Instance
new_instance env owner_id kind hostname api_url capabilities = record {
  id = env.new_id;
  owner_id = owner_id;
  instance_type = kind;
  hostname = hostname;
  last_sync_at = none;
  status = active;
  version = "0.1.0";
  capabilities = some (capabilities_or_default capabilities);
  is_primary = false;
  last_heartbeat_at = some env.now;
  auth_token_hash = some env.token_hash;
  api_url = api_url;
}

unfoldable pub register_instance :
    RegisterEnv
    → String
    → InstanceType
    → String
    → Option String
    → Option (List String)
    → List Instance
    → Registered × List Instance
unfolding new_instance instance_to_response
register_instance env owner_id kind hostname api_url capabilities rows =
    let i = new_instance env owner_id kind hostname api_url capabilities in
    (
      record {
        instance_row = instance_to_response i;
        subject = owner_id;
        instance_id = env.new_id;
      },
      rows ++ i ∷ [],
    )

abbrev pub of_owner : String → Instance → Bool
of_owner owner_id i = str_eq i.owner_id owner_id

abbrev pub owned_instance : String → String → Instance → Bool
owned_instance id owner_id i = str_eq i.id id && str_eq i.owner_id owner_id

unfoldable pub is_offline : InstanceStatus → Bool
is_offline active = false
is_offline dormant = false
is_offline offline = true

abbrev pub take_offline : Instance → Instance
take_offline i = record i { status = offline }

-- A probe answers with a status code, or raises.
unfoldable pub is_healthy : Option ℕ → Bool
is_healthy none = false
is_healthy (some code) = code == 200

-- The loop's body on a row.
unfoldable pub probed : (String → Option ℕ) → Instance → Instance
unfolding is_healthy is_offline
probed probe i =
    if truthy i.api_url && not (is_offline i.status)
    then if is_healthy (probe (or_default "" i.api_url)) then i else take_offline i
    else i

-- `discover_instances`, where `probe url` is the answer of a service's `/health`.
unfoldable pub discover_instances :
    (String → Option ℕ) → String → List Instance → List InstanceResponse × List Instance
discover_instances probe owner_id rows =
    let after = update_where (of_owner owner_id) (probed probe) rows in
    (map instance_to_response (select (of_owner owner_id) after), after)

abbrev pub not_found {ℓ} : {A : Type ℓ} → Result A
not_found = err (value_error "Instance not found or not owned by this owner")

abbrev pub demote : Instance → Instance
demote i = record i { is_primary = false }

abbrev pub promote : Instance → Instance
promote i = record i { is_primary = true }

unfoldable pub promote_to_primary :
    String → String → List Instance → Result InstanceResponse × List Instance
promote_to_primary instance_id owner_id rows =
    elim (first (owned_instance instance_id owner_id) rows) [
      | none ↦ (not_found, rows)
      | some i ↦ (
        ok (instance_to_response (promote i)),
        update_first (owned_instance instance_id owner_id) promote
            (update_where (of_owner owner_id) demote rows),
      )
    ]

abbrev pub beat : ℕ → Instance → Instance
beat now i = record i { last_heartbeat_at = some now; status = active }

unfoldable pub record_heartbeat :
    ℕ → String → String → List Instance → Result InstanceResponse × List Instance
record_heartbeat now instance_id owner_id rows =
    elim (first (owned_instance instance_id owner_id) rows) [
      | none ↦ (not_found, rows)
      | some i ↦ (
        ok (instance_to_response (beat now i)),
        update_first (owned_instance instance_id owner_id) (beat now) rows,
      )
    ]

unfoldable pub deregister_instance :
    String → String → List Instance → Result (Unit {0}) × List Instance
deregister_instance instance_id owner_id rows =
    elim (first (owned_instance instance_id owner_id) rows) [
      | none ↦ (not_found, rows)
      | some i ↦ (ok tt, delete_first (owned_instance instance_id owner_id) rows)
    ]

-- `last_heartbeat_at < now - timedelta(seconds=timeout)`; a comparison with NULL does not hold.
abbrev pub is_silent : ℕ → ℕ → Option ℕ → Bool
is_silent timeout now none = false
is_silent timeout now (some t) = ltb (t + seconds timeout) now

unfoldable pub is_stale : ℕ → ℕ → Instance → Bool
unfolding is_offline
is_stale timeout now i = not (is_offline i.status) && is_silent timeout now i.last_heartbeat_at

-- The number of instances marked, and the rows.
unfoldable pub check_stale_instances : ℕ → ℕ → List Instance → ℕ × List Instance
check_stale_instances timeout now rows =
    (count (is_stale timeout now) rows, update_where (is_stale timeout now) take_offline rows)
