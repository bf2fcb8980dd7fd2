-- ===== src/Family/Admission.antt =====
-- Admission by invite in apps/api/app/services/family_access.py: who is admitted, and how often.
use replica_ai.Family.InForce.{time_refusal_iff, Unexpired-iff}
use mathlib.Core.Path.{subst, sym}
use replica_ai.Common.{
  ℕ, ◌≡◌, ◌↔◌, refl, String, Bool, true, Option, none, some, List, first, truthy, or_default, arith,
  inl, inr, Option-cases,
}
use replica_ai.Family.Data.{
  AccessRule, FamilyInvite, welcome, VerificationMethod, secret_word, secret_event, voice_match,
  face_match, no_check, Session, session_of,
}
use replica_ai.Family.Window.{Unexpired, InWindow}
use replica_ai.Family.Scope.{has_id}
use replica_ai.Family.Invites.{
  matches_invite, identity_refusal, rule_refusal, admit, validate_family_access,
}

module _ (checkpw : String → String → Bool) where
  -- What a visitor has to show for a method: the secret that the rule's hash stands for, where the
  -- method is a secret; nothing for no method and for a face; by voice nobody is admitted.
  abbrev pub Shows : VerificationMethod → Option String → Option String → Type 0
  Shows secret_word value hash =
      (truthy value ≡ true)
      × (truthy hash ≡ true)
      × (checkpw (or_default "" value) (or_default "" hash) ≡ true)
  Shows secret_event value hash =
      (truthy value ≡ true)
      × (truthy hash ≡ true)
      × (checkpw (or_default "" value) (or_default "" hash) ≡ true)
  Shows voice_match value hash = ⊥
  Shows face_match value hash = Unit
  Shows no_check value hash = Unit

  identity_iff :
      (m : VerificationMethod) (value hash : Option String)
      → (identity_refusal checkpw m value hash ≡ none) ↔ Shows m value hash
  unfolding identity_refusal
  identity_iff secret_word value hash = ground arith
  identity_iff secret_event value hash = ground arith
  identity_iff voice_match value hash = (λ e. cc, λ h. absurd h)
  identity_iff face_match value hash = (λ e. tt, λ h. refl)
  identity_iff no_check value hash = (λ e. tt, λ h. refl)

  -- The rule is in force, and the visitor shows what it asks for.
  pub record IsEntitled (now : ℕ) (value : Option String) (r : AccessRule) : Type 0 where
    pub active : r.is_active ≡ true
    pub unexpired : Unexpired now r.valid_until
    pub in_window : InWindow now r.time_restrictions
    pub shown : Shows r.verification_method value r.verification_value_hash

  rule_refusal_sound :
      (now : ℕ) (value : Option String) (r : AccessRule)
      → rule_refusal checkpw now value r ≡ none
      → IsEntitled now value r
  unfolding rule_refusal
  rule_refusal_sound now value r h = record {
    active = ground arith;
    unexpired = (Unexpired-iff now r.valid_until).0 (ground arith);
    in_window = (time_refusal_iff now r.time_restrictions).0 (ground arith);
    shown = (identity_iff r.verification_method value r.verification_value_hash).0 (ground arith);
  }

  rule_refusal_complete :
      (now : ℕ) (value : Option String) (r : AccessRule)
      → IsEntitled now value r
      → rule_refusal checkpw now value r ≡ none
  unfolding rule_refusal
  rule_refusal_complete now value r h =
      let unexpired = (Unexpired-iff now r.valid_until).1 h.unexpired in
      let in_window = (time_refusal_iff now r.time_restrictions).1 h.in_window in
      let shown = (identity_iff r.verification_method value r.verification_value_hash).1 h.shown in
      let active = h.active in simp (active, unexpired, in_window, shown)

  -- Admission by invite is exact. For a token whose first live match is `inv`, and whose rule is
  -- `r`: the visitor is welcomed with the session of `r` exactly if the rule is in force now and
  -- the visitor shows what its method asks for.
  pub admitted_iff :
      (now : ℕ) (token : String) (value : Option String) (rules : List AccessRule)
      (invites : List FamilyInvite) (inv : FamilyInvite) (r : AccessRule)
      → first (matches_invite checkpw now token) invites ≡ some inv
      → first (has_id inv.rule_id) rules ≡ some r
      → ((validate_family_access checkpw now token value rules invites).0 ≡ welcome (session_of r))
        ↔ IsEntitled now value r
  unfolding validate_family_access admit
  admitted_iff now token value rules invites inv r f g =
      elim (Option-cases (rule_refusal checkpw now value r)) [
        | inl e ↦ (λ _. rule_refusal_sound now value r e, λ _. ground arith)
        | inr (m, e) ↦
            (λ q. ground arith, λ h. let n = rule_refusal_complete now value r h in ground arith)
      ]

  -- A visitor is never welcomed otherwise: behind every welcome stands a live invite that the token
  -- matches, with a rule that is in force and whose proof of identity was shown.
  pub welcome_sound :
      (now : ℕ) (token : String) (value : Option String) (rules : List AccessRule)
      (invites : List FamilyInvite) (s : Session)
      → (validate_family_access checkpw now token value rules invites).0 ≡ welcome s
      → (inv : FamilyInvite) × (r : AccessRule) × (first (matches_invite checkpw now token) invites
          ≡ some inv)
        × (first (has_id inv.rule_id) rules ≡ some r)
        × IsEntitled now value r
        × (s ≡ session_of r)
  unfolding validate_family_access admit
  welcome_sound now token value rules invites s h =
      elim (Option-cases (first (matches_invite checkpw now token) invites)) [
        | inl e ↦ absurd (ground arith)
        | inr (inv, e) ↦ elim (Option-cases (first (has_id inv.rule_id) rules)) [
          | inl f ↦ absurd (ground arith)
          | inr (r, f) ↦ elim (Option-cases (rule_refusal checkpw now value r)) [
            | inl g ↦ (inv, r, e, f, rule_refusal_sound now value r g, ground arith)
            | inr (m, g) ↦ absurd (ground arith)
          ]
        ]
      ]

  -- A rule that asks for a face match is not checked by invite: while it is in force, a visitor who
  -- shows nothing at all is welcomed with its session.
  pub face_match_unchecked :
      (now : ℕ) (token : String) (rules : List AccessRule) (invites : List FamilyInvite)
      (inv : FamilyInvite) (r : AccessRule)
      → first (matches_invite checkpw now token) invites ≡ some inv
      → first (has_id inv.rule_id) rules ≡ some r
      → r.verification_method ≡ face_match
      → r.is_active ≡ true
      → Unexpired now r.valid_until
      → InWindow now r.time_restrictions
      → (validate_family_access checkpw now token none rules invites).0 ≡ welcome (session_of r)
  face_match_unchecked now token rules invites inv r f g face active unexpired window =
      (admitted_iff now token none rules invites inv r f g).1 (record {
        active = active;
        unexpired = unexpired;
        in_window = window;
        shown = subst (λ m. Shows m none r.verification_value_hash) (sym face) tt;
      })
