-- ===== src/Auth/Tokens.antt =====
-- The tokens of apps/api/app/core/security.py and the guards of apps/api/app/core/auth_guard.py. The
-- library that signs and verifies tokens is a parameter.
use replica_ai.Common.{
  ℕ, ◌+◌, ◌*◌, ◌<◌, ◌≡◌, String, Bool, Option, none, some, List, or_default, str_eq, contains,
  if◌then◌else◌, false,
}
use replica_ai.Common.Raise.{Exception, other_error}
use replica_ai.Common.Time.{days, second}
use replica_ai.Common.Text.{take_chars}

-- A payload: what the code writes into one, and reads of one.
pub record Claims : Type 0 where
  pub sub : Option String
  pub role : Option String
  pub kind : Option String
  pub expires_at : ℕ
  pub jti : Option String
  pub instance_id : Option String
  pub rule_id : Option String
  pub access_level : Option String
  pub grantee_name : Option String

-- `jwt.encode` and `jwt.decode` under one key and one algorithm. `decode now token` verifies the
-- signature and that the token has not expired. A token is the encoded header, a dot, the encoded
-- payload, a dot and the signature; the header depends on the algorithm alone, and its encoding is
-- longer than 16 characters.
pub record Jwt : Type 0 where
  pub encode : Claims → String
  pub decode : ℕ → String → Option Claims
  pub decode-encode : (now : ℕ) (c : Claims) → now < c.expires_at → decode now (encode c) ≡ some c
  pub same_header : (c d : Claims) → take_chars 16 (encode c) ≡ take_chars 16 (encode d)

-- `settings.access_token_expire_minutes`, `settings.refresh_token_expire_days` and
-- `settings.connect_token_expire_minutes`.
pub record Lifetimes : Type 0 where
  pub access_minutes : ℕ
  pub refresh_days : ℕ
  pub connect_minutes : ℕ

abbrev pub minutes : ℕ → ℕ
minutes n = n * (60 * second)

unfoldable pub plain_claims : String → ℕ → Claims
plain_claims subject expires_at = record {
  sub = some subject;
  role = none;
  kind = none;
  expires_at = expires_at;
  jti = none;
  instance_id = none;
  rule_id = none;
  access_level = none;
  grantee_name = none;
}

unfoldable pub access_claims : Lifetimes → ℕ → String → String → Option String → Claims
unfolding plain_claims
access_claims l now subject role instance_id =
    record (plain_claims subject (now + minutes l.access_minutes)) {
      role = some role;
      kind = some "access";
      instance_id = instance_id;
    }

unfoldable pub refresh_claims : Lifetimes → ℕ → String → String → String → Claims
unfolding plain_claims
refresh_claims l now subject role jti = record (plain_claims subject (now + days l.refresh_days)) {
  role = some role;
  kind = some "refresh";
  jti = some jti;
}

unfoldable pub connect_claims : Lifetimes → ℕ → String → String → Claims
unfolding plain_claims
connect_claims l now owner_id jti =
    record (plain_claims owner_id (now + minutes l.connect_minutes)) {
      kind = some "connect";
      jti = some jti;
    }

abbrev pub is_kind : String → Claims → Bool
is_kind kind c = elim c.kind [ none ↦ false | some k ↦ str_eq k kind ]

-- The identity that a guard resolves.
pub record Identity : Type 0 where
  pub subject_id : String
  pub role : String
  pub instance_id : Option String
  pub rule_id : Option String
  pub access_level : Option String
  pub grantee_name : Option String

-- `HTTPException` of a guard, with its status.
pub data Guarded (A : Type 0) : Type 0 where
  passed : A → Guarded A
  denied : ℕ → Guarded A
  crashed : Exception → Guarded A

-- `payload["sub"]`
abbrev pub key_error : Exception
key_error = other_error "'sub'"

unfoldable pub identity_of : Claims → Guarded Identity
identity_of c = elim c.sub [
  | none ↦ crashed key_error
  | some subject ↦ passed (record {
    subject_id = subject;
    role = or_default "owner" c.role;
    instance_id = c.instance_id;
    rule_id = c.rule_id;
    access_level = c.access_level;
    grantee_name = c.grantee_name;
  })
]

unfoldable pub require_auth : Jwt → ℕ → String → Guarded Identity
unfolding identity_of
require_auth jwt now token = elim (jwt.decode now token) [
  | none ↦ denied 401
  | some c ↦ if is_kind "access" c then identity_of c else denied 401
]

abbrev check_role : List String → Guarded Identity → Guarded Identity
check_role allowed (passed i) = if contains allowed i.role then passed i else denied 403
check_role allowed (denied status) = denied status
check_role allowed (crashed e) = crashed e

-- `require_role(*allowed_roles)`
unfoldable pub require_role : Jwt → List String → ℕ → String → Guarded Identity
require_role jwt allowed now token = check_role allowed (require_auth jwt now token)
