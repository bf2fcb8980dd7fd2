-- ===== src/Auth/Accounts.antt =====
-- The owners' accounts in apps/api/app/services/auth.py: set-up, profile and password. `hashpw` and
-- `checkpw` stand for bcrypt.
use replica_ai.Common.{
  String, Bool, true, false, not, ◌&&◌, Option, none, some, List, [], ◌∷◌, ◌++◌, first,
  update_first, str_eq, truthy, or_default, is_some, if◌then◌else◌,
}
use replica_ai.Common.Raise.{Exception, Result, ok, err, value_error}

-- A row of `owners`.
pub record Owner : Type 0 where
  pub id : String
  pub name : String
  pub email : String
  pub phone : Option String
  pub preferred_language : String
  pub voice_profile_ref : Option String
  pub face_profile_ref : Option String
  pub auth_secret_hash : Option String
  pub password_hash : Option String
  pub google_id : Option String

abbrev pub has_id : String → Owner → Bool
has_id id o = str_eq o.id id

abbrev pub has_email : String → Owner → Bool
has_email email o = str_eq o.email email

pub record SetupRequest : Type 0 where
  pub name : String
  pub email : String
  pub phone : Option String
  pub preferred_language : String
  pub password : Option String
  pub secret_word : Option String
  pub secret_event : Option String

abbrev pub hash_if : (String → String) → Option String → Option String
hash_if hashpw value = if truthy value then some (hashpw (or_default "" value)) else none

-- The secret word, or else the secret event.
unfoldable pub secret_of : SetupRequest → Option String
secret_of q = if truthy q.secret_word then q.secret_word else q.secret_event

unfoldable pub new_owner : (String → String) → String → SetupRequest → Owner
unfolding secret_of
new_owner hashpw id q = record {
  id = id;
  name = q.name;
  email = q.email;
  phone = q.phone;
  preferred_language = q.preferred_language;
  voice_profile_ref = none;
  face_profile_ref = none;
  auth_secret_hash = hash_if hashpw (secret_of q);
  password_hash = hash_if hashpw q.password;
  google_id = none;
}

abbrev pub email_taken : Exception
email_taken = value_error "An owner with this email already exists"

-- `setup_owner` up to the tokens, with the new identifier drawn.
unfoldable pub setup_owner :
    (String → String) → String → SetupRequest → List Owner → Result Owner × List Owner
unfolding new_owner
setup_owner hashpw id q owners = elim (first (has_email q.email) owners) [
  | some o ↦ (err email_taken, owners)
  | none ↦ let o = new_owner hashpw id q in (ok o, owners ++ o ∷ [])
]

-- The profile that an owner is shown.
pub record Profile : Type 0 where
  pub owner_id : String
  pub name : String
  pub email : String
  pub phone : Option String
  pub preferred_language : String
  pub has_password : Bool
  pub google_linked : Bool

unfoldable pub to_profile : Owner → Profile
to_profile o = record {
  owner_id = o.id;
  name = o.name;
  email = o.email;
  phone = o.phone;
  preferred_language = o.preferred_language;
  has_password = is_some o.password_hash;
  google_linked = is_some o.google_id;
}

unfoldable pub get_profile : String → List Owner → Result Profile
unfolding to_profile
get_profile owner_id owners = elim (first (has_id owner_id) owners) [
  | none ↦ err (value_error "Owner not found")
  | some o ↦ ok (to_profile o)
]

pub record ProfileUpdate : Type 0 where
  pub name : String
  pub email : String
  pub phone : Option String

abbrev pub with_profile : ProfileUpdate → Owner → Owner
with_profile u o = record o { name = u.name; email = u.email; phone = u.phone }

-- Another owner with the new email, where the email changes.
abbrev pub conflicts : String → ProfileUpdate → Owner → List Owner → Bool
conflicts owner_id u o owners =
    not (str_eq u.email o.email)
    && is_some (first (λ x. has_email u.email x && not (has_id owner_id x)) owners)

unfoldable pub update_profile : String → ProfileUpdate → List Owner → Result Profile × List Owner
unfolding to_profile
update_profile owner_id u owners = elim (first (has_id owner_id) owners) [
  | none ↦ (err (value_error "Owner not found"), owners)
  | some o ↦ if conflicts owner_id u o owners then (err email_taken, owners) else (
    ok (to_profile (with_profile u o)),
    update_first (has_id owner_id) (with_profile u) owners,
  )
]

abbrev pub proves_password : (String → String → Bool) → Option String → Owner → Bool
proves_password checkpw current o =
    if truthy o.password_hash
    then truthy current && checkpw (or_default "" current) (or_default "" o.password_hash)
    else true

abbrev pub with_password : String → Owner → Owner
with_password hash o = record o { password_hash = some hash }

-- Whether the password was set, the message, and the owners.
unfoldable pub set_password :
    (String → String → Bool)
    → (String → String)
    → String
    → Option String
    → String
    → List Owner
    → (Bool × String) × List Owner
set_password checkpw hashpw owner_id current new owners = elim (first (has_id owner_id) owners) [
  | none ↦ ((false, "Owner not found"), owners)
  | some o ↦
      if proves_password checkpw current o
      then (
        (true, "Password updated"),
        update_first (has_id owner_id) (with_password (hashpw new)) owners,
      )
      else ((false, "Current password is incorrect"), owners)
]
