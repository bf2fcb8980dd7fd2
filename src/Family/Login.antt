-- ===== src/Family/Login.antt =====
-- Admission by family code: `family_login` of apps/api/app/services/family_access.py, with the rate
-- limit of apps/api/app/core/rate_limit.py. Redis, bcrypt's `checkpw`, and the normal forms
-- `s.strip().upper()` of a code and `s.strip().lower()` of a name are parameters.
use Prim.Native.String.{◌++◌ as str_append}
use replica_ai.Common.{
  ℕ, String, Bool, true, false, not, ◌&&◌, ◌||◌, Option, none, some, List, first, str_eq, truthy,
  or_default, if◌then◌else◌,
}
use replica_ai.Common.Text.{decimal}
use replica_ai.Redis.{Redis}
use replica_ai.RateLimit.{Limits, check_rate_limit, record_attempt, clear_attempts}
use replica_ai.Family.Data.{
  AccessRule, FamilySession, welcome, refused, VerificationMethod, session_of,
}
use replica_ai.Family.Window.{time_refusal, has_expired}

pub record Owner : Type 0 where
  pub id : String
  pub family_code : Option String

pub record LoginRequest : Type 0 where
  pub family_code : String
  pub grantee_name : String
  pub verification_value : String

unfoldable pub is_secret : VerificationMethod → Bool
is_secret VerificationMethod.secret_word = true
is_secret VerificationMethod.secret_event = true
is_secret VerificationMethod.voice_match = false
is_secret VerificationMethod.face_match = false
is_secret VerificationMethod.no_check = false

unfoldable pub has_code : String → Owner → Bool
has_code code o = elim o.family_code [ none ↦ false | some c ↦ str_eq c code ]

unfoldable pub login_key : String → String
login_key code = str_append "family_login:" code

pub record World : Type 1 where
  pub redis : Redis
  pub limits : Limits
  pub checkpw : String → String → Bool
  pub normal_code : String → String
  pub normal_name : String → String

module _ (w : World) where
  open w use {redis, limits, checkpw, normal_code, normal_name, redis.{Store}}

  -- The candidates of the query, with the test of the generator.
  unfoldable pub is_member : String → String → AccessRule → Bool
  is_member owner_id wanted r =
      str_eq r.owner_id owner_id && r.is_active && str_eq (normal_name r.grantee_name) wanted

  unfoldable pub fails_secret : LoginRequest → AccessRule → Bool
  fails_secret q r =
      not (truthy r.verification_value_hash)
      || not (checkpw q.verification_value (or_default "" r.verification_value_hash))

  -- A failed attempt is counted; the answer is a refusal.
  unfoldable pub counted_refusal : String → String → Store → FamilySession × Store
  counted_refusal key message s = (refused message, (record_attempt redis limits s key).1)

  unfoldable pub login_as :
      ℕ → String → LoginRequest → Option AccessRule → Store → FamilySession × Store
  login_as now key q none s = counted_refusal key "No matching family member found." s
  login_as now key q (some r) s =
      if has_expired now r.valid_until
      then (refused "This access has expired.", s)
      else elim (time_refusal now r.time_restrictions) [
        | some message ↦ (refused message, s)
        | none ↦
            if is_secret r.verification_method
            then if fails_secret q r
              then counted_refusal key "Verification failed." s
              else (welcome (session_of r), clear_attempts redis limits s key)
            else (refused "This family member's access method isn't supported here.", s)
      ]

  unfoldable pub login_at :
      ℕ → String → LoginRequest → Option Owner → List AccessRule → Store → FamilySession × Store
  login_at now key q none rules s = counted_refusal key "Invalid family code." s
  login_at now key q (some o) rules s =
      login_as now key q (first (is_member o.id (normal_name q.grantee_name)) rules) s

  unfoldable pub family_login :
      ℕ → LoginRequest → List Owner → List AccessRule → Store → FamilySession × Store
  family_login now q owners rules s =
      let code = normal_code q.family_code in
      let ((allowed, wait_seconds), s1) = check_rate_limit redis limits s (login_key code) in
      if not allowed
      then (
        refused (
            str_append "Too many attempts. Try again in "
              (str_append (decimal wait_seconds) " seconds.")),
        s1,
      )
      else login_at now (login_key code) q (first (has_code code) owners) rules s1
