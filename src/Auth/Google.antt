-- ===== src/Auth/Google.antt =====
-- The sign-in through Google in apps/api/app/services/auth.py. `lower` stands for `func.lower` and
-- `str.lower`, `strip` for `str.strip`.
use Prim.Native.String.{◌++◌ as str_append}
use replica_ai.Common.{
  String, Bool, false, Option, none, some, List, [], ◌∷◌, ◌++◌, first, select, update_first, str_eq,
  truthy, or_default, is_blank, if◌then◌else◌,
}
use replica_ai.Common.Raise.{Result, ok, err, one_or_none}
use replica_ai.Auth.Accounts.{Owner, has_id}

-- The profile that Google answers with.
pub record UserInfo : Type 0 where
  pub sub : String
  pub email : Option String
  pub name : Option String

pub record TextForms : Type 0 where
  pub lower : String → String
  pub strip : String → String
  -- `email.split("@")[0]`
  pub local_part : String → String

abbrev pub has_google : String → Owner → Bool
has_google id o = elim o.google_id [ none ↦ false | some g ↦ str_eq g id ]

abbrev pub has_lower_email : TextForms → String → Owner → Bool
has_lower_email t email o = str_eq (t.lower o.email) email

abbrev pub linked : String → Owner → Owner
linked google_id o = record o { google_id = some google_id }

unfoldable pub google_owner : TextForms → String → UserInfo → String → Owner
google_owner t id u email = record {
  id = id;
  name =
      if truthy u.name
      then or_default "" u.name
      else if is_blank email
      then "New Owner"
      else t.local_part email;
  email = if is_blank email then str_append id "@replica-ai.local" else email;
  phone = none;
  preferred_language = "en";
  voice_profile_ref = none;
  face_profile_ref = none;
  auth_secret_hash = none;
  password_hash = none;
  google_id = some u.sub;
}

abbrev pub link_or_create :
    TextForms
    → String
    → UserInfo
    → String
    → Result (Option Owner)
    → List Owner
    → Result Owner × List Owner
link_or_create t id u email (err e) owners = (err e, owners)
link_or_create t id u email (ok (some o)) owners =
    (ok (linked u.sub o), update_first (has_id o.id) (linked u.sub) owners)
link_or_create t id u email (ok none) owners =
    let o = google_owner t id u email in (ok o, owners ++ o ∷ [])

-- `login_or_create_owner_via_google`
unfoldable pub login_via_google :
    TextForms → String → UserInfo → List Owner → Result Owner × List Owner
unfolding google_owner one_or_none
login_via_google t id u owners =
    let email = t.lower (t.strip (or_default "" u.email)) in
    elim (first (has_google u.sub) owners) [
      | some o ↦ (ok o, owners)
      | none ↦
          if is_blank email
          then link_or_create t id u email (ok none) owners
          else link_or_create t id u email (one_or_none (select (has_lower_email t email) owners))
              owners
    ]
