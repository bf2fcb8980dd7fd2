-- ===== src/Family/Scope.antt =====
-- What a session may see: `FamilyScope`, `resolve_family_scope` and `list_family_assets` of
-- apps/api/app/services/family_access.py.
use replica_ai.Common.{
  String, Bool, true, false, not, ◌&&◌, Option, none, some, List, [], first, select, contains,
  str_eq, truthy, or_default, if◌then◌else◌, ◌∷◌,
}
use replica_ai.Family.Data.{AccessRule, AccessLevel}

-- `None` on an axis means that the axis is not restricted.
pub record FamilyScope : Type 0 where
  pub allowed_content_types : Option (List String)
  pub allowed_categories : Option (List String)

-- The identity of a request (apps/api/app/core/auth_guard.py).
pub record AuthContext : Type 0 where
  pub subject_id : String
  pub role : String
  pub rule_id : Option String

pub record KnowledgeEntry : Type 0 where
  pub id : String
  pub owner_id : String
  pub content_type : String
  pub category : Option String

unfoldable pub permits_type : Option (List String) → String → Bool
permits_type none t = true
permits_type (some allowed) t = contains allowed t

-- An entry with no category passes any list of categories.
unfoldable pub permits_category : Option (List String) → Option String → Bool
permits_category none c = true
permits_category (some allowed) none = true
permits_category (some allowed) (some c) = contains allowed c

-- `FamilyScope.permits`
unfoldable pub permits : FamilyScope → String → Option String → Bool
unfolding permits_type permits_category
permits scope content_type category =
    if permits_type scope.allowed_content_types content_type
    then permits_category scope.allowed_categories category
    else false

abbrev pub unrestricted_scope : FamilyScope
unrestricted_scope = record { allowed_content_types = none; allowed_categories = none }

abbrev pub empty_scope : FamilyScope
empty_scope = record { allowed_content_types = some []; allowed_categories = some [] }

unfoldable pub is_full : AccessLevel → Bool
is_full AccessLevel.full = true
is_full AccessLevel.read_only = false
is_full AccessLevel.limited = false

unfoldable pub scope_of_rule : Option AccessRule → FamilyScope
unfolding is_full
scope_of_rule none = empty_scope
scope_of_rule (some r) = if is_full r.access_level then unrestricted_scope else record {
  allowed_content_types = r.allowed_content_types;
  allowed_categories = r.allowed_information_categories;
}

abbrev pub has_id : String → AccessRule → Bool
has_id rule_id r = str_eq r.id rule_id

unfoldable pub resolve_family_scope : AuthContext → List AccessRule → FamilyScope
unfolding scope_of_rule
resolve_family_scope auth rules =
    if not (str_eq auth.role "family_member")
    then unrestricted_scope
    else if not (truthy auth.rule_id)
    then empty_scope
    else scope_of_rule (first (has_id (or_default "" auth.rule_id)) rules)

abbrev pub belongs_to : String → KnowledgeEntry → Bool
belongs_to owner_id e = str_eq e.owner_id owner_id

abbrev pub is_empty_list : Option (List String) → Bool
is_empty_list none = false
is_empty_list (some []) = true
is_empty_list (some (x ∷ xs)) = false

-- `content_type IN (…)`, where there is a list.
abbrev pub type_clause : Option (List String) → KnowledgeEntry → Bool
type_clause none e = true
type_clause (some allowed) e = contains allowed e.content_type

-- `category IN (…) OR category IS NULL`, where there is a list.
abbrev pub category_clause : Option (List String) → KnowledgeEntry → Bool
category_clause none e = true
category_clause (some allowed) e = elim e.category [ none ↦ true | some c ↦ contains allowed c ]

-- The body of `list_family_assets` once the scope is resolved, over the entries in the order of the
-- query: the newest first.
unfoldable pub list_in_scope : String → FamilyScope → List KnowledgeEntry → List KnowledgeEntry
list_in_scope owner_id scope entries =
    if is_empty_list scope.allowed_content_types
    then []
    else if is_empty_list scope.allowed_categories
    then []
    else select
        (λ e.
          belongs_to owner_id e
          && type_clause scope.allowed_content_types e
          && category_clause scope.allowed_categories e)
        entries

unfoldable pub list_family_assets :
    AuthContext → List AccessRule → List KnowledgeEntry → List KnowledgeEntry
unfolding resolve_family_scope list_in_scope
list_family_assets auth rules entries =
    list_in_scope auth.subject_id (resolve_family_scope auth rules) entries
