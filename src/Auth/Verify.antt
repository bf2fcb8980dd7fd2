-- ===== src/Auth/Verify.antt =====
-- Verification of an owner in apps/api/app/services/auth.py (`_resolve_verification`,
-- `verify_identity`, `login_owner`), with the rate limit of apps/api/app/core/rate_limit.py, and the
-- routes of apps/api/app/routers/auth.py that store the refresh token.
use Prim.Native.String.{◌++◌ as str_append}
use replica_ai.Common.{
  ℕ, ◌-◌, String, Bool, true, false, not, ◌&&◌, ◌||◌, is_some, Option, none, some, List, first,
  select, truthy, or_default, if◌then◌else◌,
}
use replica_ai.Common.Raise.{Result, ok, err}
use replica_ai.Common.Text.{decimal}
use replica_ai.Redis.{Redis}
use replica_ai.RateLimit.{Limits, check_rate_limit, record_attempt, clear_attempts}
use replica_ai.Auth.Sessions.{Sessions, TokenPair, new_pair, store_refresh_token}
use replica_ai.Auth.Accounts.{Owner, has_id}
use replica_ai.Auth.Google.{TextForms, has_lower_email}
use replica_ai.Common.Raise.{one_or_none}

-- `verification_type`; any other text is `other_type`.
pub data VerificationType : Type 0 where
  password secret_word secret_event voice_match face_match other_type : VerificationType

pub data VerifyResponse : Type 0 where
  verified : TokenPair → VerifyResponse
  refused : String → VerifyResponse
  -- The request does not fit its schema: status 422, before the service is called.
  unprocessable : VerifyResponse

-- The pattern of `VerifyRequest.verification_type`, which has no password.
unfoldable pub may_verify : VerificationType → Bool
may_verify password = false
may_verify secret_word = true
may_verify secret_event = true
may_verify voice_match = true
may_verify face_match = true
may_verify other_type = false

-- `VerifyRequest`: a value that is there is not empty.
abbrev pub fits_verify : VerificationType → Option String → Bool
fits_verify kind value = may_verify kind && (truthy value || not (is_some value))

-- What one verification uses.
pub record Gate : Type 1 where
  pub sessions : Sessions
  pub redis : Redis
  pub limits : Limits
  pub checkpw : String → String → Bool
  pub forms : TextForms

-- The outcome of the branches on the type: a refusal that is not counted, or a comparison.
pub data Challenge : Type 0 where
  turned_away : String → Challenge
  compared : Bool → Challenge

-- `verify_secret(value, hash)`, where both are there.
unfoldable pub compare :
    (String → String → Bool) → String → String → Option String → Option String → Challenge
compare checkpw no_value no_hash value hash =
    if not (truthy value)
    then turned_away no_value
    else if not (truthy hash)
    then turned_away no_hash
    else compared (checkpw (or_default "" value) (or_default "" hash))

abbrev pub no_password : String
no_password =
    "No password set for this account. Sign in with your secret word/event instead, or set a password from Settings once signed in."

abbrev pub secret_challenge : (String → String → Bool) → Option String → Owner → Challenge
secret_challenge checkpw value o =
    compare checkpw "Value is required for secret verification"
      "No secret configured for this owner" value o.auth_secret_hash

unfoldable pub challenge :
    (String → String → Bool) → VerificationType → Option String → Owner → Challenge
unfolding compare
challenge checkpw password value o =
    compare checkpw "Password is required" no_password value o.password_hash
challenge checkpw secret_word value o = secret_challenge checkpw value o
challenge checkpw secret_event value o = secret_challenge checkpw value o
challenge checkpw voice_match value o =
    if not (truthy o.voice_profile_ref)
    then turned_away "No voice profile enrolled. Use /api/verify/voice/enroll first."
    else turned_away "Voice verification requires audio. Use /api/verify/voice/check endpoint."
challenge checkpw face_match value o =
    if not (truthy o.face_profile_ref)
    then turned_away "No face profile enrolled. Use /api/verify/face/enroll first."
    else turned_away "Face verification requires an image. Use /api/verify/face/check endpoint."
challenge checkpw other_type value o = compared false

module _ (w : Gate) where
  open w use {sessions, redis, limits, checkpw, forms, redis.{Store}}

  abbrev pub failed_message : ℕ → String
  failed_message count =
      str_append "Verification failed. "
        (str_append (decimal (limits.max_attempts - count)) " attempts remaining.")

  abbrev pub locked_message : ℕ → String
  locked_message wait =
      str_append "Too many attempts. Try again in " (str_append (decimal wait) " seconds.")

  unfoldable pub judge : ℕ → String → Owner → Challenge → Store → VerifyResponse × Store
  judge now jti o (turned_away message) s = (refused message, s)
  judge now jti o (compared true) s =
      (verified (new_pair sessions now o.id "owner" jti), clear_attempts redis limits s o.id)
  judge now jti o (compared false) s =
      let (count, s') = record_attempt redis limits s o.id in (refused (failed_message count), s')

  -- `_resolve_verification`
  unfoldable pub resolve_verification :
      ℕ → String → VerificationType → Option String → Owner → Store → VerifyResponse × Store
  unfolding judge challenge
  resolve_verification now jti kind value o s =
      let ((allowed, wait), s1) = check_rate_limit redis limits s o.id in
      if not allowed
      then (refused (locked_message wait), s1)
      else judge now jti o (challenge checkpw kind value o) s1

  -- With the validation of the request, which stands before it.
  unfoldable pub verify_identity :
      ℕ
      → String
      → String
      → VerificationType
      → Option String
      → List Owner
      → Store
      → VerifyResponse × Store
  verify_identity now jti owner_id kind value owners s =
      if not (fits_verify kind value)
      then (unprocessable, s)
      else elim (first (has_id owner_id) owners) [
        | none ↦ (refused "Owner not found", s)
        | some o ↦ resolve_verification now jti kind value o s
      ]

  abbrev pub login_found :
      ℕ
      → String
      → VerificationType
      → Option String
      → Result (Option Owner)
      → Store
      → Result (Option String × VerifyResponse) × Store
  login_found now jti kind value (err e) s = (err e, s)
  login_found now jti kind value (ok none) s =
      (ok (none, refused "No account found for that email."), s)
  login_found now jti kind value (ok (some o)) s =
      let (answer, s') = resolve_verification now jti kind value o s in
      (
        ok (
          elim answer [ verified pair ↦ some o.id | refused message ↦ none | unprocessable ↦ none ],
          answer,
        ),
        s',
      )

  -- `login_owner`: the owner's identifier is told where the owner is verified. `LoginRequest` admits
  -- the types password, secret word and secret event, with a value that is not empty.
  unfoldable pub login_owner :
      ℕ
      → String
      → String
      → VerificationType
      → Option String
      → List Owner
      → Store
      → Result (Option String × VerifyResponse) × Store
  unfolding one_or_none
  login_owner now jti email kind value owners s =
      login_found now jti kind value
        (one_or_none (select (has_lower_email forms (forms.lower (forms.strip email))) owners)) s

  -- `auth_verify`: the route stores the refresh token of a verified owner.
  unfoldable pub auth_verify :
      ℕ
      → String
      → String
      → VerificationType
      → Option String
      → List Owner
      → Store
      → sessions.texts.Texts
      → VerifyResponse × Store × sessions.texts.Texts
  auth_verify now jti owner_id kind value owners s t =
      let (answer, s') = verify_identity now jti owner_id kind value owners s in
      (
        answer,
        s',
        elim answer [
          | verified pair ↦ store_refresh_token sessions t pair.refresh_token owner_id
          | refused message ↦ t
          | unprocessable ↦ t
        ],
      )
