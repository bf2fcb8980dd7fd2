-- ===== src/Auth/Connection.antt =====
-- `connect_instance` of apps/api/app/services/auth.py.
use replica_ai.Common.{
  ℕ, String, false, Option, none, some, List, [], ◌∷◌, ◌++◌, first, if◌then◌else◌,
}
use replica_ai.Common.Raise.{Result, ok, err, value_error}
use replica_ai.Instances.{Instance, InstanceType, active}
use replica_ai.Auth.Tokens.{Jwt, Lifetimes, is_kind, key_error, access_claims}
use replica_ai.Auth.Accounts.{Owner, has_id}

pub record ConnectRequest : Type 0 where
  pub token : String
  pub instance_type : InstanceType
  pub hostname : String

unfoldable pub connected_instance : ℕ → String → String → ConnectRequest → Instance
connected_instance now instance_id owner_id q = record {
  id = instance_id;
  owner_id = owner_id;
  instance_type = q.instance_type;
  hostname = q.hostname;
  last_sync_at = some now;
  status = active;
  version = "0.1.0";
  capabilities = none;
  is_primary = false;
  last_heartbeat_at = none;
  auth_token_hash = none;
  api_url = none;
}

-- The session token, the owner and the instance of a connection.
pub record Connected : Type 0 where
  pub session_token : String
  pub owner_id : String
  pub instance_id : String

abbrev pub connect_owner :
    Jwt
    → Lifetimes
    → ℕ
    → String
    → ConnectRequest
    → String
    → Option Owner
    → List Instance
    → Result Connected × List Instance
connect_owner jwt l now instance_id q owner_id none rows =
    (err (value_error "Owner not found"), rows)
connect_owner jwt l now instance_id q owner_id (some o) rows = (
  ok (record {
    session_token = jwt.encode (access_claims l now owner_id "instance" (some instance_id));
    owner_id = owner_id;
    instance_id = instance_id;
  }),
  rows ++ connected_instance now instance_id owner_id q ∷ [],
)

abbrev pub connect_claims_of :
    Jwt
    → Lifetimes
    → ℕ
    → String
    → ConnectRequest
    → Option String
    → List Owner
    → List Instance
    → Result Connected × List Instance
connect_claims_of jwt l now instance_id q none owners rows = (err key_error, rows)
connect_claims_of jwt l now instance_id q (some owner_id) owners rows =
    connect_owner jwt l now instance_id q owner_id (first (has_id owner_id) owners) rows

unfoldable pub connect_instance :
    Jwt
    → Lifetimes
    → ℕ
    → String
    → ConnectRequest
    → List Owner
    → List Instance
    → Result Connected × List Instance
unfolding connected_instance
connect_instance jwt l now instance_id q owners rows = elim (jwt.decode now q.token) [
  | none ↦ (err (value_error "Invalid or expired connection token"), rows)
  | some c ↦
      if is_kind "connect" c
      then connect_claims_of jwt l now instance_id q c.sub owners rows
      else (err (value_error "Token is not a connection token"), rows)
]
