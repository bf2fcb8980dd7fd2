-- ===== src/Auth/Proofs.antt =====
-- What stands behind a verified owner in apps/api/app/services/auth.py.
use replica_ai.Common.{
  ℕ, ◌≡◌, ◌≢◌, refl, arith, String, Bool, true, false, Option, none, some, List, first, truthy,
  or_default, Option-cases, inl, inr, Bool-cases, update_first, [], ◌∷◌,
}
use replica_ai.RateLimit.{check_rate_limit}
use replica_ai.Auth.Sessions.{TokenPair, new_pair}
use replica_ai.Auth.Accounts.{Owner, has_id, with_password}
use replica_ai.Auth.Verify.{
  VerificationType, password, secret_word, secret_event, voice_match, face_match, other_type,
  verified, refused, Gate, Challenge, turned_away, compared, compare, challenge, judge,
  resolve_verification, verify_identity, unprocessable, may_verify, fits_verify,
}

-- The hash that a verification of a type is compared with.
abbrev pub hash_of : VerificationType → Owner → Option String
hash_of password o = o.password_hash
hash_of secret_word o = o.auth_secret_hash
hash_of secret_event o = o.auth_secret_hash
hash_of voice_match o = none
hash_of face_match o = none
hash_of other_type o = none

-- A value that is there, against a hash that is there.
pub record Proves (checkpw : String → String → Bool) (kind : VerificationType)
    (value : Option String) (o : Owner) : Type 0 where
  pub shown : truthy value ≡ true
  pub configured : truthy (hash_of kind o) ≡ true
  pub matches : checkpw (or_default "" value) (or_default "" (hash_of kind o)) ≡ true

compare_sound :
    (checkpw : String → String → Bool) (a b : String) (value hash : Option String)
    → compare checkpw a b value hash ≡ compared true
    → (truthy value ≡ true)
      × (truthy hash ≡ true)
      × (checkpw (or_default "" value) (or_default "" hash) ≡ true)
unfolding compare
compare_sound checkpw a b value hash h = ground arith

challenge_sound :
    (checkpw : String → String → Bool) (kind : VerificationType) (value : Option String) (o : Owner)
    → challenge checkpw kind value o ≡ compared true
    → Proves checkpw kind value o
unfolding challenge
challenge_sound checkpw password value o h =
    let (a, b, c) = compare_sound checkpw _ _ value o.password_hash h in
    record { shown = a; configured = b; matches = c }
challenge_sound checkpw secret_word value o h =
    let (a, b, c) = compare_sound checkpw _ _ value o.auth_secret_hash h in
    record { shown = a; configured = b; matches = c }
challenge_sound checkpw secret_event value o h =
    let (a, b, c) = compare_sound checkpw _ _ value o.auth_secret_hash h in
    record { shown = a; configured = b; matches = c }
challenge_sound checkpw voice_match value o h = ground arith
challenge_sound checkpw face_match value o h = ground arith
challenge_sound checkpw other_type value o h = cc

module _ (w : Gate) where
  open w use {sessions, redis, limits, checkpw, forms, redis.{Store}}

  judge_sound :
      (now : ℕ) (jti : String) (o : Owner) (c : Challenge) (s : Store) (pair : TokenPair)
      → (judge w now jti o c s).0 ≡ verified pair
      → (c ≡ compared true) × (pair ≡ new_pair sessions now o.id "owner" jti)
  unfolding judge
  judge_sound now jti o (turned_away m) s pair h = cc
  judge_sound now jti o (compared true) s pair h = (refl, ground arith)
  judge_sound now jti o (compared false) s pair h = cc

  refused_not_verified : {m : String} {pair : TokenPair} → refused m ≢ verified pair
  refused_not_verified h = cc

  resolve_sound :
      (now : ℕ) (jti : String) (kind : VerificationType) (value : Option String) (o : Owner)
      (s : Store) (pair : TokenPair)
      → (resolve_verification w now jti kind value o s).0 ≡ verified pair
      → ((check_rate_limit redis limits s o.id).0.0 ≡ true)
        × (challenge checkpw kind value o ≡ compared true)
        × (pair ≡ new_pair sessions now o.id "owner" jti)
  unfolding resolve_verification
  resolve_sound now jti kind value o s pair h =
      elim (Bool-cases (check_rate_limit redis limits s o.id).0.0) [
        | inl open_door ↦
            let (right, made) =
              judge_sound now jti o (challenge checkpw kind value o)
                (check_rate_limit redis limits s o.id).1 pair (rw open_door at h) in
            (open_door, right, made)
        | inr locked ↦ absurd (refused_not_verified (rw locked at h))
      ]

  unprocessable_not_verified : {pair : TokenPair} → unprocessable ≢ verified pair
  unprocessable_not_verified h = cc

  -- An owner is verified only while no lock-out of the owner runs and by a value that is there and
  -- passes against the hash that is configured for the type asked for, a type that the request may
  -- ask for; the tokens are those of that owner. So no password, no voice, no face and no unknown
  -- type verifies here.
  pub verified_sound :
      (now : ℕ) (jti owner_id : String) (kind : VerificationType) (value : Option String)
      (owners : List Owner) (s : Store) (pair : TokenPair)
      → (verify_identity w now jti owner_id kind value owners s).0 ≡ verified pair
      → (o : Owner) × (first (has_id owner_id) owners ≡ some o)
        × ((check_rate_limit redis limits s o.id).0.0 ≡ true)
        × (may_verify kind ≡ true)
        × Proves checkpw kind value o
        × (pair ≡ new_pair sessions now o.id "owner" jti)
  unfolding verify_identity
  verified_sound now jti owner_id kind value owners s pair h =
      elim (Bool-cases (fits_verify kind value)) [
        | inr unfit ↦ absurd (unprocessable_not_verified (rw unfit at h))
        | inl fit ↦ elim (Option-cases (first (has_id owner_id) owners)) [
          | inl missing ↦ absurd (refused_not_verified (rw (fit, missing, verify_identity) at h))
          | inr (o, found) ↦
              let (door, right, made) =
                resolve_sound now jti kind value o s pair (rw (fit, found, verify_identity) at h) in
              (
                o,
                found,
                door,
                ground (arith, fit),
                challenge_sound checkpw kind value o right,
                made,
              )
        ]
      ]

  first-with_password :
      (id hash : String) (owners : List Owner) (o : Owner)
      → first (has_id id) owners ≡ some o
      → first (has_id id) (update_first (has_id id) (with_password hash) owners)
        ≡ some (with_password hash o)
  first-with_password id hash [] o found = cc
  first-with_password id hash (x ∷ owners) o found =
      ground (arith, first-with_password id hash owners o)
