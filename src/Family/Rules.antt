-- ===== src/Family/Rules.antt =====
-- The access rules: `create_access_rule`, `get_access_rule`, `list_access_rules`,
-- `update_access_rule` and `delete_access_rule` of apps/api/app/services/family_access.py. A request
-- has passed the patterns of apps/api/app/models/family_access.py; `hashpw` is bcrypt's hash with a
-- fresh salt (`hash_secret`).
use replica_ai.Common.{
  ℕ, ◌+◌, String, Bool, true, false, Option, none, some, List, [], ◌∷◌, ◌++◌, first, select,
  update_first, delete_first, str_eq, truthy, or_default, if◌then◌else◌,
}
use replica_ai.Common.Time.{days}
use replica_ai.Common.Raise.{Result, ok, err, value_error}
use replica_ai.Family.Data.{AccessRule, AccessLevel, VerificationMethod, TimeRestrictions}
use replica_ai.Family.Invites.{owned_rule}

pub record CreateRequest : Type 0 where
  pub grantee_name : String
  pub grantee_relation : Option String
  pub access_level : AccessLevel
  pub verification_method : VerificationMethod
  pub verification_value : Option String
  pub topic_restrictions : Option String
  pub time_restrictions : Option TimeRestrictions
  pub allowed_content_types : Option (List String)
  pub allowed_information_categories : Option (List String)
  pub valid_until : Option ℕ
  pub template_name : Option String

unfoldable pub hash_value : (String → String) → Option String → Option String
hash_value hashpw value = if truthy value then some (hashpw (or_default "" value)) else none

abbrev pub is_text : Option String → String → Bool
is_text none t = false
is_text (some s) t = str_eq s t

-- A rule from the template "trusted_friend" ends after a year, unless the request names an end.
unfoldable pub valid_until_of : ℕ → CreateRequest → Option ℕ
valid_until_of now q =
    if is_text q.template_name "trusted_friend"
    then some (or_default (now + days 365) q.valid_until)
    else q.valid_until

unfoldable pub create_access_rule :
    ℕ
    → String
    → (String → String)
    → String
    → CreateRequest
    → List AccessRule
    → AccessRule × List AccessRule
unfolding hash_value valid_until_of
create_access_rule now new_id hashpw owner q rules =
    let rule : AccessRule = record {
      id = new_id;
      owner_id = owner;
      grantee_name = q.grantee_name;
      grantee_relation = q.grantee_relation;
      access_level = q.access_level;
      verification_method = q.verification_method;
      verification_value_hash = hash_value hashpw q.verification_value;
      is_active = true;
      valid_from = some now;
      valid_until = valid_until_of now q;
      topic_restrictions = q.topic_restrictions;
      time_restrictions = q.time_restrictions;
      allowed_content_types = q.allowed_content_types;
      allowed_information_categories = q.allowed_information_categories;
      template_name = q.template_name;
    } in
    (rule, rules ++ rule ∷ [])

abbrev pub of_owner : String → AccessRule → Bool
of_owner owner_id r = str_eq r.owner_id owner_id

unfoldable pub get_access_rule : String → String → List AccessRule → Result AccessRule
get_access_rule rule_id owner_id rules = elim (first (owned_rule rule_id owner_id) rules) [
  | none ↦ err (value_error "Access rule not found")
  | some r ↦ ok r
]

-- The rows come in the order of the table; the query's order by time is not modelled.
unfoldable pub list_access_rules : String → List AccessRule → List AccessRule
list_access_rules owner_id rules = select (of_owner owner_id) rules

-- A key of the `updates` dict: not there, or there with its value, which may be `None`.
pub data Change (A : Type 0) : Type 0 where
  keep : Change A
  to : Option A → Change A

-- `if key in updates and updates[key] is not None`
abbrev pub changed : {A : Type 0} → A → Change A → A
changed old keep = old
changed old (to none) = old
changed old (to (some new)) = new

-- `if key in updates`
abbrev pub changed_to : {A : Type 0} → Option A → Change A → Option A
changed_to old keep = old
changed_to old (to new) = new

pub record UpdateRequest : Type 0 where
  pub grantee_name : Change String
  pub grantee_relation : Change String
  pub access_level : Change AccessLevel
  pub verification_method : Change VerificationMethod
  pub verification_value : Change String
  pub is_active : Change Bool
  pub valid_until : Change ℕ
  pub topic_restrictions : Change String
  pub time_restrictions : Change TimeRestrictions
  pub allowed_content_types : Change (List String)
  pub allowed_information_categories : Change (List String)

abbrev pub rehashed : (String → String) → Option String → Change String → Option String
rehashed hashpw old keep = old
rehashed hashpw old (to none) = old
rehashed hashpw old (to (some value)) = some (hashpw value)

unfoldable pub apply_updates : (String → String) → UpdateRequest → AccessRule → AccessRule
apply_updates hashpw u r = record r {
  grantee_name = changed r.grantee_name u.grantee_name;
  grantee_relation = changed_to r.grantee_relation u.grantee_relation;
  access_level = changed r.access_level u.access_level;
  verification_method = changed r.verification_method u.verification_method;
  verification_value_hash = rehashed hashpw r.verification_value_hash u.verification_value;
  is_active = changed r.is_active u.is_active;
  valid_until = changed_to r.valid_until u.valid_until;
  topic_restrictions = changed_to r.topic_restrictions u.topic_restrictions;
  time_restrictions = changed_to r.time_restrictions u.time_restrictions;
  allowed_content_types = changed_to r.allowed_content_types u.allowed_content_types;
  allowed_information_categories =
      changed_to r.allowed_information_categories u.allowed_information_categories;
}

unfoldable pub update_access_rule :
    (String → String)
    → String
    → String
    → UpdateRequest
    → List AccessRule
    → Result AccessRule × List AccessRule
update_access_rule hashpw rule_id owner_id u rules =
    elim (first (owned_rule rule_id owner_id) rules) [
      | none ↦ (err (value_error "Access rule not found"), rules)
      | some r ↦ (
        ok (apply_updates hashpw u r),
        update_first (owned_rule rule_id owner_id) (apply_updates hashpw u) rules,
      )
    ]

unfoldable pub delete_access_rule :
    String → String → List AccessRule → Result (Unit {0}) × List AccessRule
delete_access_rule rule_id owner_id rules = elim (first (owned_rule rule_id owner_id) rules) [
  | none ↦ (err (value_error "Access rule not found"), rules)
  | some r ↦ (ok tt, delete_first (owned_rule rule_id owner_id) rules)
]
