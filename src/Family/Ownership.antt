-- ===== src/Family/Ownership.antt =====
-- Whose access rules the operations of apps/api/app/services/family_access.py touch.
use replica_ai.Common.{
  ℕ, ◌≡◌, ◌≢◌, refl, String, Bool, true, false, some, List, [], ◌∷◌, first, select, update_first,
  delete_first, eq_iff, arith, Bool-cases, Option-cases, inl, inr, ◌++◌,
}
use replica_ai.Family.Data.{AccessRule}
use replica_ai.Family.Invites.{owned_rule}
use replica_ai.Family.Rules.{
  CreateRequest, UpdateRequest, of_owner, apply_updates, create_access_rule, update_access_rule,
  delete_access_rule, get_access_rule, list_access_rules,
}

theirs_not_ours :
    (id o j : String) (r : AccessRule) → o ≢ j → owned_rule id o r ≡ true → of_owner j r ≡ false
theirs_not_ours id o j r ne h = ground (arith, eq_iff r.owner_id o, eq_iff r.owner_id j)

owner-apply_updates :
    (hashpw : String → String) (u : UpdateRequest) (r : AccessRule)
    → (apply_updates hashpw u r).owner_id ≡ r.owner_id
unfolding apply_updates
owner-apply_updates hashpw u r = refl

select-update_first :
    (id o j : String) (hashpw : String → String) (u : UpdateRequest) (rules : List AccessRule)
    → o ≢ j
    → select (of_owner j) (update_first (owned_rule id o) (apply_updates hashpw u) rules)
      ≡ select (of_owner j) rules
select-update_first id o j hashpw u [] ne = refl
select-update_first id o j hashpw u (r ∷ rules) ne = ground (
  arith,
  theirs_not_ours id o j r ne,
  owner-apply_updates hashpw u r,
  select-update_first id o j hashpw u rules ne,
)

select-delete_first :
    (id o j : String) (rules : List AccessRule)
    → o ≢ j
    → select (of_owner j) (delete_first (owned_rule id o) rules) ≡ select (of_owner j) rules
select-delete_first id o j [] ne = refl
select-delete_first id o j (r ∷ rules) ne =
    ground (arith, theirs_not_ours id o j r ne, select-delete_first id o j rules ne)

select-append :
    (test : AccessRule → Bool) (xs : List AccessRule) (x : AccessRule)
    → test x ≡ false
    → select test (xs ++ x ∷ []) ≡ select test xs
select-append test [] x h = ground arith
select-append test (y ∷ xs) x h = ground (arith, select-append test xs x h)

-- What one owner creates, updates or deletes, under any rule identifier, also one of another
-- owner, leaves the other owners' lists of rules as they were.
pub rules_isolated :
    (now : ℕ) (o j id : String) (hashpw : String → String) (q : CreateRequest) (u : UpdateRequest)
    (rules : List AccessRule)
    → o ≢ j
    → (list_access_rules j (create_access_rule now id hashpw o q rules).1
        ≡ list_access_rules j rules)
      × (list_access_rules j (update_access_rule hashpw id o u rules).1 ≡ list_access_rules j rules)
      × (list_access_rules j (delete_access_rule id o rules).1 ≡ list_access_rules j rules)
unfolding list_access_rules create_access_rule update_access_rule delete_access_rule
rules_isolated now o j id hashpw q u rules ne = (
  select-append (of_owner j) rules (create_access_rule now id hashpw o q rules).0
      (ground (arith, eq_iff o j)),
  ground (arith, select-update_first id o j hashpw u rules ne),
  ground (arith, select-delete_first id o j rules ne),
)

owned-apply_updates :
    (id o : String) (hashpw : String → String) (u : UpdateRequest) (r : AccessRule)
    → owned_rule id o (apply_updates hashpw u r) ≡ owned_rule id o r
unfolding apply_updates
owned-apply_updates id o hashpw u r = refl

first-update_first :
    (id o : String) (hashpw : String → String) (u : UpdateRequest) (rules : List AccessRule)
    (r : AccessRule)
    → first (owned_rule id o) rules ≡ some r
    → first (owned_rule id o) (update_first (owned_rule id o) (apply_updates hashpw u) rules)
      ≡ some (apply_updates hashpw u r)
first-update_first id o hashpw u [] r h = cc
first-update_first id o hashpw u (x ∷ rules) r h = elim (Bool-cases (owned_rule id o x)) [
  | inl e ↦ ground (arith, owned-apply_updates id o hashpw u x)
  | inr e ↦ ground (arith, first-update_first id o hashpw u rules r)
]

-- What an update answers is what a read finds afterwards: the updated rule where the owner has
-- one of that identifier, and "not found" for both where the owner has none.
pub get-update :
    (id o : String) (hashpw : String → String) (u : UpdateRequest) (rules : List AccessRule)
    → let (answer, rules') = update_access_rule hashpw id o u rules in
      get_access_rule id o rules' ≡ answer
unfolding get_access_rule update_access_rule
get-update id o hashpw u rules = elim (Option-cases (first (owned_rule id o) rules)) [
  | inl e ↦ ground arith
  | inr (r, e) ↦ ground (arith, first-update_first id o hashpw u rules r e)
]
