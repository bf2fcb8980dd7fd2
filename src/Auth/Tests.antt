-- ===== src/Auth/Tests.antt =====
-- The theorems on apps/api/app/services/auth.py at concrete accounts and tokens. `str_eq` stands for
-- bcrypt's test, and texts for their own hashes; `lower` makes every email one text.
use replica_ai.Common.{
  ℕ, ◌<◌, ◌≡◌, refl, arith, String, true, Option, none, some, [], ◌∷◌, first, str_eq, or_default,
}
use replica_ai.Common.Raise.{ok, err, value_error, other_error}
use replica_ai.Redis.Texts.{Timed, text_table}
use replica_ai.Redis.Table.{table, Entry}
use replica_ai.RateLimit.{Limits, check_rate_limit}
use replica_ai.Auth.Tokens.{
  Claims, Lifetimes, access_claims, refresh_claims, connect_claims, require_auth, denied,
}
use replica_ai.Auth.Codec.{clear_jwt}
use replica_ai.Auth.Sessions.{Sessions, new_pair, refresh_tokens, store_refresh_token, logout}
use replica_ai.Auth.Accounts.{Owner, SetupRequest, has_id, setup_owner, new_owner}
use replica_ai.Auth.Google.{TextForms}
use replica_ai.Auth.Verify.{
  Gate, VerificationType, verified, may_verify, verify_identity, login_owner, resolve_verification,
}
use replica_ai.Auth.Rotation.{
  IsRefresh, stored_token_expires, rotated_token_works_again, logout_ends_all,
}
use replica_ai.Instances.{local}
use replica_ai.Auth.Connection.{ConnectRequest, connect_instance}
use replica_ai.Auth.Kinds.{kinds_separate}
use replica_ai.Auth.Proofs.{Proves, verified_sound}
use replica_ai.Auth.Emails.{case_twins_cannot_login}

abbrev lifetimes : Lifetimes
lifetimes = record { access_minutes = 60; refresh_days = 30; connect_minutes = 60 }

abbrev sessions : Sessions
sessions = record { texts = text_table; jwt = clear_jwt; lifetimes = lifetimes }

-- Two devices of one owner.
abbrev laptop : Claims
laptop = refresh_claims lifetimes 5 "ann" "owner" "laptop"

abbrev phone : Claims
phone = refresh_claims lifetimes 7 "ann" "owner" "phone"

laptop-IsRefresh : (now : ℕ) → now < 1000 → IsRefresh "ann" now laptop
unfolding refresh_claims
laptop-IsRefresh now h = record { sub = refl; kind = refl; running = omega arith }

phone-IsRefresh : (now : ℕ) → now < 1000 → IsRefresh "ann" now phone
unfolding refresh_claims
phone-IsRefresh now h = record { sub = refl; kind = refl; running = omega arith }

abbrev all_stored : String → Option (Timed String)
all_stored key = some (record { value = "token"; left = 100 })

stored_token_expires_example :
    (refresh_tokens sessions 10 "next" (clear_jwt.encode laptop) (
      text_table.elapse 100
        (store_refresh_token sessions all_stored (clear_jwt.encode laptop) "ann"))).0
    ≡ ok (new_pair sessions 10 "ann" (or_default "owner" laptop.role) "next")
stored_token_expires_example =
    stored_token_expires sessions 10 100 "next" "ann" laptop all_stored (omega arith)
      (laptop-IsRefresh 10 (omega arith))

rotated_token_works_again_example :
    let role = or_default "owner" laptop.role in
    let (answer, after) = refresh_tokens sessions 10 "next" (clear_jwt.encode laptop) all_stored in
    (answer ≡ ok (new_pair sessions 10 "ann" role "next"))
    × ((refresh_tokens sessions 20 "again" (clear_jwt.encode laptop) after).0
        ≡ ok (new_pair sessions 20 "ann" role "again"))
    × ((refresh_tokens sessions 20 "again" (clear_jwt.encode laptop) (text_table.elapse 10 after)).0
        ≡ ok (new_pair sessions 20 "ann" role "again"))
rotated_token_works_again_example =
    rotated_token_works_again sessions 10 20 10 "next" "again" "ann" "token" laptop all_stored
      (omega arith) (omega arith) (laptop-IsRefresh 10 (omega arith))
      (laptop-IsRefresh 20 (omega arith)) refl

logout_ends_all_example :
    refresh_tokens sessions 20 "next"
      (clear_jwt.encode phone)
      (logout sessions 10 (clear_jwt.encode laptop) all_stored)
    ≡ (
      err (value_error "Refresh token has been revoked or expired"),
      logout sessions 10 (clear_jwt.encode laptop) all_stored,
    )
logout_ends_all_example =
    logout_ends_all sessions 10 20 "next" "ann" laptop phone all_stored refl
      (laptop-IsRefresh 10 (omega arith)) (phone-IsRefresh 20 (omega arith))

abbrev ann : Owner
ann = record {
  id = "ann";
  name = "Ann";
  email = "Ann@home";
  phone = none;
  preferred_language = "en";
  voice_profile_ref = none;
  face_profile_ref = none;
  auth_secret_hash = some "lighthouse";
  password_hash = none;
  google_id = none;
}

abbrev connecting : String → ConnectRequest
connecting token = record { token = token; instance_type = local; hostname = "desk" }

kinds_separate_example :
    (require_auth clear_jwt 10 (clear_jwt.encode (refresh_claims lifetimes 5 "ann" "owner" "j"))
      ≡ denied 401)
    × (require_auth clear_jwt 10 (clear_jwt.encode (connect_claims lifetimes 5 "ann" "j"))
        ≡ denied 401)
    × (refresh_tokens sessions 10 "j"
          (clear_jwt.encode (access_claims lifetimes 5 "ann" "owner" none))
          all_stored
        ≡ (err (value_error "Token is not a refresh token"), all_stored))
    × (refresh_tokens sessions 10 "j"
          (clear_jwt.encode (connect_claims lifetimes 5 "ann" "j"))
          all_stored
        ≡ (err (value_error "Token is not a refresh token"), all_stored))
    × (connect_instance clear_jwt lifetimes 10 "i"
          (connecting (clear_jwt.encode (access_claims lifetimes 5 "ann" "owner" none)))
          (ann ∷ [])
          []
        ≡ (err (value_error "Token is not a connection token"), []))
    × (connect_instance clear_jwt lifetimes 10 "i"
          (connecting (clear_jwt.encode (refresh_claims lifetimes 5 "ann" "owner" "j")))
          (ann ∷ [])
          []
        ≡ (err (value_error "Token is not a connection token"), []))
unfolding access_claims refresh_claims connect_claims
kinds_separate_example =
    kinds_separate sessions 10 "ann" "j" 5 "owner" none all_stored "i"
      (connecting (clear_jwt.encode (access_claims lifetimes 5 "ann" "owner" none)))
      (connecting (clear_jwt.encode (refresh_claims lifetimes 5 "ann" "owner" "j"))) (ann ∷ []) []
      (omega arith) (omega arith) (omega arith) refl refl

abbrev limits : Limits
limits = record { max_attempts = 3; window_seconds = 900; lockout_seconds = 3600 }

abbrev forms : TextForms
forms = record { lower = λ s. "mail"; strip = λ s. s; local_part = λ s. s }

abbrev gate : Gate
gate = record {
  sessions = sessions;
  redis = table;
  limits = limits;
  checkpw = str_eq;
  forms = forms;
}

abbrev no_keys : String → Option Entry
no_keys k = none

ann_verified :
    (verify_identity gate 10 "j" "ann" VerificationType.secret_word
      (some "lighthouse")
      (ann ∷ [])
      no_keys).0
    ≡ verified (new_pair sessions 10 "ann" "owner" "j")
unfolding verify_identity may_verify resolve_verification check_rate_limit
ann_verified = refl

verified_sound_example :
    (o : Owner) × (first (has_id "ann") (ann ∷ []) ≡ some o)
    × ((check_rate_limit table limits no_keys o.id).0.0 ≡ true)
    × (may_verify VerificationType.secret_word ≡ true)
    × Proves str_eq VerificationType.secret_word (some "lighthouse") o
    × (new_pair sessions 10 "ann" "owner" "j" ≡ new_pair sessions 10 o.id "owner" "j")
verified_sound_example =
    verified_sound gate 10 "j" "ann" VerificationType.secret_word (some "lighthouse") (ann ∷ [])
      no_keys (new_pair sessions 10 "ann" "owner" "j") ann_verified

abbrev request : String → SetupRequest
request email = record {
  name = "Ann";
  email = email;
  phone = none;
  preferred_language = "en";
  password = none;
  secret_word = some "lighthouse";
  secret_event = none;
}

case_twins_cannot_login_example :
    let (first_answer, owners1) = setup_owner (λ s. s) "a" (request "Ann@home") [] in
    let (second_answer, owners2) = setup_owner (λ s. s) "b" (request "ann@home") owners1 in
    (first_answer ≡ ok (new_owner (λ s. s) "a" (request "Ann@home")))
    × (second_answer ≡ ok (new_owner (λ s. s) "b" (request "ann@home")))
    × ((login_owner gate 10 "j" "ann@home" VerificationType.secret_word
          (some "lighthouse")
          owners2
          no_keys).0
        ≡ err (other_error "Multiple rows were found when one or none was required"))
case_twins_cannot_login_example =
    case_twins_cannot_login gate (λ s. s) "a" "b" (request "Ann@home") (request "ann@home") [] 10
      "j" "ann@home" VerificationType.secret_word (some "lighthouse") no_keys refl refl refl refl
      refl
