-- ===== src/Family/Data.antt =====
-- The rows of apps/api/app/models/owner.py that family access reads and writes, and its answers.
use replica_ai.Common.{ℕ, String, Bool, Option, List}

pub data AccessLevel : Type 0 where
  full read_only limited : AccessLevel

-- `VerificationMethod`; `none` is spelled `no_check`.
pub data VerificationMethod : Type 0 where
  secret_word secret_event voice_match face_match no_check : VerificationMethod

-- The JSON object of `time_restrictions`: each key may be missing. `timezone` is stored, and not
-- read by the code.
pub record TimeRestrictions : Type 0 where
  pub allowed_days : Option (List String)
  pub start_hour : Option ℕ
  pub end_hour : Option ℕ
  pub timezone : Option String

pub record AccessRule : Type 0 where
  pub id : String
  pub owner_id : String
  pub grantee_name : String
  pub grantee_relation : Option String
  pub access_level : AccessLevel
  pub verification_method : VerificationMethod
  pub verification_value_hash : Option String
  pub is_active : Bool
  pub valid_from : Option ℕ
  pub valid_until : Option ℕ
  -- The JSON text; the code passes it on unread.
  pub topic_restrictions : Option String
  pub time_restrictions : Option TimeRestrictions
  pub allowed_content_types : Option (List String)
  pub allowed_information_categories : Option (List String)
  pub template_name : Option String

pub record FamilyInvite : Type 0 where
  pub id : String
  pub rule_id : String
  pub token_hash : String
  pub is_reusable : Bool
  pub uses_remaining : ℕ
  pub expires_at : ℕ

-- The claims of a `family_member` session token.
pub record Session : Type 0 where
  pub owner_id : String
  pub rule_id : String
  pub access_level : AccessLevel
  pub grantee_name : String

-- `FamilySessionResponse`: verified with a session, or not verified, with the message.
pub data FamilySession : Type 0 where
  welcome : Session → FamilySession
  refused : String → FamilySession

-- The session of a rule: `create_access_token(subject=rule.owner_id, role="family_member", …)`.
unfoldable pub session_of : AccessRule → Session
session_of r = record {
  owner_id = r.owner_id;
  rule_id = r.id;
  access_level = r.access_level;
  grantee_name = r.grantee_name;
}
