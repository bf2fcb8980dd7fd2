-- ===== src/Family/Tests.antt =====
-- The family access theorems at concrete rules, invites and requests. `str_eq` stands for bcrypt's
-- test, and texts for their own normal forms.
use replica_ai.Common.{
  ◌≡◌, ◌+◌, ◌↔◌, refl, ℕ, String, true, none, some, List, [], ◌∷◌, arith, All, select, str_eq, inr,
}
use replica_ai.Common.Time.{days}
use replica_ai.Family.Data.{
  AccessRule, FamilyInvite, welcome, AccessLevel, VerificationMethod, TimeRestrictions, session_of,
}
use replica_ai.Family.Window.{day_number, day_allowed, has_restrictions}
use replica_ai.Family.Scope.{
  AuthContext, KnowledgeEntry, permits, resolve_family_scope, list_family_assets, is_full,
}
use replica_ai.Family.Visible.{is_visible, list-eq-permitted, listed-All, empty_categories_disagree}
use replica_ai.Family.Invites.{matches_invite, validate_family_access}
use replica_ai.Family.Admission.{IsEntitled, admitted_iff, face_match_unchecked}
use replica_ai.Family.Uses.{uses_of, Attempt, attempt_all, admissions_bounded}

-- Open from Monday to Friday, between 9 and 17 hours.
abbrev office_hours : TimeRestrictions
office_hours = record {
  allowed_days = some ("mon" ∷ "tue" ∷ "wed" ∷ "thu" ∷ "fri" ∷ []);
  start_hour = some 9;
  end_hour = some 17;
  timezone = some "UTC";
}

abbrev son : AccessRule
son = record {
  id = "r1";
  owner_id = "ann";
  grantee_name = "tom";
  grantee_relation = some "son";
  access_level = AccessLevel.limited;
  verification_method = VerificationMethod.secret_word;
  verification_value_hash = some "apple";
  is_active = true;
  valid_from = some 0;
  valid_until = some (days 400);
  topic_restrictions = none;
  time_restrictions = some office_hours;
  allowed_content_types = none;
  allowed_information_categories = some ("recipes" ∷ []);
  template_name = none;
}

abbrev by_face : AccessRule
by_face = record son {
  id = "r2";
  verification_method = VerificationMethod.face_match;
  verification_value_hash = none;
  time_restrictions = none;
  allowed_information_categories = some [];
}

abbrev rules : List AccessRule
rules = son ∷ by_face ∷ []

abbrev session : String → AuthContext
session rule = record { subject_id = "ann"; role = "family_member"; rule_id = some rule }

abbrev letter : KnowledgeEntry
letter = record { id = "k1"; owner_id = "ann"; content_type = "text"; category = none }

abbrev entries : List KnowledgeEntry
entries =
    letter
    ∷ record { id = "k2"; owner_id = "ann"; content_type = "text"; category = some "money" }
    ∷ []

list-eq-permitted_example :
    list_family_assets (session "r1") rules entries
    ≡ select (is_visible "ann" (resolve_family_scope (session "r1") rules)) entries
list-eq-permitted_example =
    list-eq-permitted (session "r1") rules entries (unfold resolve_family_scope in ground arith)

listed-All_example :
    All
      (λ e. is_visible "ann" (resolve_family_scope (session "r1") rules) e ≡ true)
      (list_family_assets (session "r1") rules entries)
listed-All_example = listed-All (session "r1") rules entries

empty_categories_disagree_example :
    (permits (resolve_family_scope (session "r2") rules) "text" none ≡ true)
    × (list_family_assets (session "r2") rules entries ≡ [])
empty_categories_disagree_example =
    empty_categories_disagree (session "r2") rules entries by_face letter refl refl refl
      (unfold is_full in refl) refl refl refl

-- Thursday the first of January 1970 at 10 hours.
abbrev morning : ℕ
morning = 36000000000

abbrev invite : FamilyInvite
invite = record {
  id = "i1";
  rule_id = "r1";
  token_hash = "token";
  is_reusable = true;
  uses_remaining = 2;
  expires_at = days 2;
}

abbrev face_invite : FamilyInvite
face_invite = record invite { id = "i2"; rule_id = "r2"; token_hash = "face" }

abbrev invites : List FamilyInvite
invites = invite ∷ face_invite ∷ []

admitted_iff_example :
    ((validate_family_access str_eq morning "token" (some "apple") rules invites).0
      ≡ welcome (session_of son))
    ↔ IsEntitled str_eq morning (some "apple") son
admitted_iff_example =
    admitted_iff str_eq morning "token" (some "apple") rules invites invite son
      (unfold matches_invite in refl) refl

son-IsEntitled : IsEntitled str_eq morning (some "apple") son
unfolding has_restrictions day_allowed day_number
son-IsEntitled = record {
  active = refl;
  unexpired = omega arith;
  in_window = inr (refl, omega arith, omega arith);
  shown = (refl, refl, refl);
}

face_match_unchecked_example :
    (validate_family_access str_eq morning "face" none rules invites).0
    ≡ welcome (session_of by_face)
face_match_unchecked_example =
    face_match_unchecked str_eq morning "face" rules invites face_invite by_face
      (unfold matches_invite in refl) refl refl refl (omega arith) tt

abbrev attempts : List Attempt
attempts =
    record { now = morning; token = "token"; value = some "apple"; rules = rules }
    ∷ record { now = morning; token = "token"; value = some "pear"; rules = rules }
    ∷ record { now = morning; token = "token"; value = some "apple"; rules = [] }
    ∷ []

admissions_bounded_example :
    let (n, last) = attempt_all str_eq "i1" attempts invites in n + uses_of "i1" last ≡ 2
admissions_bounded_example = admissions_bounded str_eq "i1" attempts invites
