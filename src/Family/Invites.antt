-- ===== src/Family/Invites.antt =====
-- Invitations: `generate_family_invite` and `validate_family_access` of
-- apps/api/app/services/family_access.py. `checkpw` is bcrypt's test of a secret against its hash
-- (`verify_secret`).
use Prim.Native.String.{◌++◌ as str_append}
use replica_ai.Common.{
  ℕ, ◌+◌, ◌-◌, ◌*◌, String, Bool, not, ◌&&◌, Option, none, some, List, [], ◌∷◌, ◌++◌, first,
  update_first, ltb, str_eq, truthy, or_default, if◌then◌else◌,
}
use replica_ai.Common.Time.{second}
use replica_ai.Common.Raise.{Result, ok, err, value_error}
use replica_ai.Family.Data.{
  AccessRule, FamilyInvite, FamilySession, welcome, refused, VerificationMethod, secret_word,
  secret_event, voice_match, face_match, no_check, session_of,
}
use replica_ai.Family.Window.{time_refusal, has_expired}
use replica_ai.Family.Scope.{has_id}

-- `VerificationMethod.value`
unfoldable pub method_value : VerificationMethod → String
method_value secret_word = "secret_word"
method_value secret_event = "secret_event"
method_value voice_match = "voice_match"
method_value face_match = "face_match"
method_value no_check = "none"

abbrev pub owned_rule : String → String → AccessRule → Bool
owned_rule rule_id owner_id r = str_eq r.id rule_id && str_eq r.owner_id owner_id

-- What `generate_family_invite` takes from outside: the clock, the identifier, the hash of the new
-- token, and the setting `family_invite_expire_hours`.
pub record InviteEnv : Type 0 where
  pub now : ℕ
  pub invite_id : String
  pub token_hash : String
  pub expire_hours : ℕ

unfoldable pub generate_family_invite :
    InviteEnv
    → String
    → String
    → Bool
    → ℕ
    → List AccessRule
    → List FamilyInvite
    → Result FamilyInvite × List FamilyInvite
generate_family_invite env rule_id owner_id reusable max_uses rules invites =
    elim (first (owned_rule rule_id owner_id) rules) [
      | none ↦ (err (value_error "Access rule not found"), invites)
      | some r ↦
          let invite : FamilyInvite = record {
            id = env.invite_id;
            rule_id = rule_id;
            token_hash = env.token_hash;
            is_reusable = reusable;
            uses_remaining = if reusable then max_uses else 1;
            expires_at = env.now + env.expire_hours * 3600 * second;
          } in
          (ok invite, invites ++ invite ∷ [])
    ]

-- The uses of a matched invite after an admission.
unfoldable pub use_once : FamilyInvite → FamilyInvite
use_once inv =
    if not inv.is_reusable
    then record inv { uses_remaining = inv.uses_remaining - 1 }
    else if ltb 0 inv.uses_remaining
    then record inv { uses_remaining = inv.uses_remaining - 1 }
    else inv

module _ (checkpw : String → String → Bool) where
  -- The query for live invites, with the test of the loop.
  unfoldable pub matches_invite : ℕ → String → FamilyInvite → Bool
  matches_invite now token inv =
      ltb now inv.expires_at && ltb 0 inv.uses_remaining && checkpw token inv.token_hash

  unfoldable pub secret_refusal : VerificationMethod → Option String → Option String → Option String
  unfolding method_value
  secret_refusal method value hash =
      if not (truthy value)
      then some (str_append "Verification required: " (method_value method))
      else if not (truthy hash)
      then some "Verification not configured for this rule."
      else if not (checkpw (or_default "" value) (or_default "" hash))
      then some "Verification failed. Incorrect answer."
      else none

  -- The refusal by identity, if there is one: the branches of the code on the method.
  unfoldable pub identity_refusal :
      VerificationMethod → Option String → Option String → Option String
  unfolding secret_refusal
  identity_refusal secret_word value hash = secret_refusal secret_word value hash
  identity_refusal secret_event value hash = secret_refusal secret_event value hash
  identity_refusal voice_match value hash =
      some "Voice verification required. Use /api/verify/voice/check."
  identity_refusal face_match value hash = none
  identity_refusal no_check value hash = none

  -- The refusals by a rule that was found, in the order of the code.
  unfoldable pub rule_refusal : ℕ → Option String → AccessRule → Option String
  rule_refusal now value r =
      if not r.is_active
      then some "This access rule is no longer active."
      else if has_expired now r.valid_until
      then some "This access has expired."
      else elim (time_refusal now r.time_restrictions) [
        | some message ↦ some message
        | none ↦ identity_refusal r.verification_method value r.verification_value_hash
      ]

  unfoldable pub admit :
      ℕ
      → String
      → Option String
      → Option AccessRule
      → List FamilyInvite
      → FamilySession × List FamilyInvite
  admit now token value none invites = (refused "This access rule is no longer active.", invites)
  admit now token value (some r) invites = elim (rule_refusal now value r) [
    | some message ↦ (refused message, invites)
    | none ↦ (welcome (session_of r), update_first (matches_invite now token) use_once invites)
  ]

  -- `validate_family_access`, with the session and the invites that it leaves.
  unfoldable pub validate_family_access :
      ℕ
      → String
      → Option String
      → List AccessRule
      → List FamilyInvite
      → FamilySession × List FamilyInvite
  validate_family_access now token value rules invites =
      elim (first (matches_invite now token) invites) [
        | none ↦ (refused "Invalid or expired invite link.", invites)
        | some inv ↦ admit now token value (first (has_id inv.rule_id) rules) invites
      ]
