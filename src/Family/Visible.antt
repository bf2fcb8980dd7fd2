-- ===== src/Family/Visible.antt =====
-- The listing of apps/api/app/services/family_access.py against its test of single entries.
use mathlib.Core.Path.{fun_ext}
use replica_ai.Common.{
  ◌≡◌, ◌≢◌, refl, ap, sym, String, Bool, true, false, ◌&&◌, Option, none, some, List, [], ◌∷◌,
  first, select, truthy, or_default, arith, All, Bool-cases, inl, inr, ◌⊎◌, eq_iff,
}
use replica_ai.Family.Data.{AccessRule}
use replica_ai.Family.Scope.{
  FamilyScope, AuthContext, KnowledgeEntry, permits, permits_type, permits_category, is_full,
  has_id, resolve_family_scope, belongs_to, is_empty_list, type_clause, category_clause,
  list_family_assets, list_in_scope,
}

-- An entry of the owner that the scope's own test permits.
abbrev pub is_visible : String → FamilyScope → KnowledgeEntry → Bool
is_visible owner_id scope e = belongs_to owner_id e && permits scope e.content_type e.category

-- The listing's query, as one test.
abbrev query : String → FamilyScope → KnowledgeEntry → Bool
query owner_id scope e =
    belongs_to owner_id e
    && type_clause scope.allowed_content_types e
    && category_clause scope.allowed_categories e

type_clause-eq-permits_type :
    (t : Option (List String)) (e : KnowledgeEntry)
    → type_clause t e ≡ permits_type t e.content_type
unfolding permits_type
type_clause-eq-permits_type none e = refl
type_clause-eq-permits_type (some l) e = refl

category_clause-eq-permits_category :
    (c : Option (List String)) (e : KnowledgeEntry)
    → category_clause c e ≡ permits_category c e.category
unfolding permits_category
category_clause-eq-permits_category none e = refl
category_clause-eq-permits_category (some l) e = ground arith

query-eq-is_visible :
    (owner_id : String) (scope : FamilyScope) (e : KnowledgeEntry)
    → query owner_id scope e ≡ is_visible owner_id scope e
unfolding permits
query-eq-is_visible owner_id scope e = ground (
  arith,
  type_clause-eq-permits_type scope.allowed_content_types e,
  category_clause-eq-permits_category scope.allowed_categories e,
)

select-all_false {ℓ} :
    {A : Type ℓ} (test : A → Bool) (xs : List A) → ((x : A) → test x ≡ false) → select test xs ≡ []
select-all_false test [] h = refl
select-all_false test (x ∷ xs) h = ground (arith, h x, select-all_false test xs h)

select-All {ℓ} :
    {A : Type ℓ} (test : A → Bool) (xs : List A) → All (λ x. test x ≡ true) (select test xs)
select-All test [] = tt
select-All test (x ∷ xs) = elim (Bool-cases (test x)) [
  | inl e ↦ rw e (e, select-All test xs)
  | inr e ↦ rw e (select-All test xs)
]

no_types :
    (owner_id : String) (scope : FamilyScope) (e : KnowledgeEntry)
    → is_empty_list scope.allowed_content_types ≡ true
    → is_visible owner_id scope e ≡ false
unfolding permits
no_types owner_id scope e h = ground arith

not_empty_list : (c : Option (List String)) → c ≢ some [] → is_empty_list c ≡ false
not_empty_list none h = refl
not_empty_list (some []) h = absurd (h refl)
not_empty_list (some (x ∷ xs)) h = refl

list_in_scope-eq-select :
    (owner_id : String) (scope : FamilyScope) (entries : List KnowledgeEntry)
    → scope.allowed_categories ≢ some []
    → list_in_scope owner_id scope entries ≡ select (is_visible owner_id scope) entries
unfolding list_in_scope
list_in_scope-eq-select owner_id scope entries h =
    rw (not_empty_list scope.allowed_categories h)
      (elim (Bool-cases (is_empty_list scope.allowed_content_types)) [
        | inl e ↦ rw e (
            sym (
              select-all_false (is_visible owner_id scope) entries
                (λ x. no_types owner_id scope x e)))
        | inr e ↦ rw e (
            ap (λ (t : KnowledgeEntry → Bool). select t entries)
              (fun_ext (query-eq-is_visible owner_id scope)))
      ])

-- Unless the list of allowed categories is there and empty, the listing is exactly the owner's
-- entries that the scope permits one by one, in the order of the table.
pub list-eq-permitted :
    (auth : AuthContext) (rules : List AccessRule) (entries : List KnowledgeEntry)
    → (resolve_family_scope auth rules).allowed_categories ≢ some []
    → list_family_assets auth rules entries
      ≡ select (is_visible auth.subject_id (resolve_family_scope auth rules)) entries
unfolding list_family_assets
list-eq-permitted auth rules entries h =
    list_in_scope-eq-select auth.subject_id (resolve_family_scope auth rules) entries h

list_in_scope_none :
    (owner_id : String) (scope : FamilyScope) (entries : List KnowledgeEntry)
    → is_empty_list scope.allowed_categories ≡ true
    → list_in_scope owner_id scope entries ≡ []
unfolding list_in_scope
list_in_scope_none owner_id scope entries h = ground arith

list_in_scope-All :
    (owner_id : String) (scope : FamilyScope) (entries : List KnowledgeEntry)
    → All (λ e. is_visible owner_id scope e ≡ true) (list_in_scope owner_id scope entries)
list_in_scope-All owner_id scope entries =
    elim (Bool-cases (is_empty_list scope.allowed_categories)) [
      | inl e ↦ rw (list_in_scope_none owner_id scope entries e) tt
      | inr e ↦
          rw (list_in_scope-eq-select owner_id scope entries (λ q. ground arith))
            (select-All (is_visible owner_id scope) entries)
    ]

-- Whatever the session and the rules: every listed entry belongs to the session's owner, and the
-- scope of the session permits it.
pub listed-All :
    (auth : AuthContext) (rules : List AccessRule) (entries : List KnowledgeEntry)
    → All
        (λ e. is_visible auth.subject_id (resolve_family_scope auth rules) e ≡ true)
        (list_family_assets auth rules entries)
unfolding list_family_assets
listed-All auth rules entries =
    list_in_scope-All auth.subject_id (resolve_family_scope auth rules) entries

-- A family session with no rule, or whose rule is gone, is listed nothing and permitted nothing.
pub lost_rule_sees_nothing :
    (auth : AuthContext) (rules : List AccessRule) (entries : List KnowledgeEntry)
    (e : KnowledgeEntry)
    → auth.role ≡ "family_member"
    → (truthy auth.rule_id ≡ false) ⊎ (first (has_id (or_default "" auth.rule_id)) rules ≡ none)
    → (list_family_assets auth rules entries ≡ [])
      × (permits (resolve_family_scope auth rules) e.content_type e.category ≡ false)
unfolding list_family_assets permits
lost_rule_sees_nothing auth rules entries e role gone =
    ground (arith, eq_iff auth.role "family_member")

-- A rule that is not "full" and whose list of categories is empty, with no restriction of the
-- content types: every entry without a category is permitted one by one, and none is listed.
pub empty_categories_disagree :
    (auth : AuthContext) (rules : List AccessRule) (entries : List KnowledgeEntry) (r : AccessRule)
    (e : KnowledgeEntry)
    → auth.role ≡ "family_member"
    → truthy auth.rule_id ≡ true
    → first (has_id (or_default "" auth.rule_id)) rules ≡ some r
    → is_full r.access_level ≡ false
    → r.allowed_content_types ≡ none
    → r.allowed_information_categories ≡ some []
    → e.category ≡ none
    → (permits (resolve_family_scope auth rules) e.content_type e.category ≡ true)
      × (list_family_assets auth rules entries ≡ [])
unfolding list_family_assets permits
empty_categories_disagree auth rules entries r e role known found level types cats c =
    ground (arith, eq_iff auth.role "family_member")
