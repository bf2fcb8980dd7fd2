-- ===== src/Instances/Primary.antt =====
-- The primary instance of an owner in apps/api/app/services/instance_manager.py, over every
-- history of the registry.
use replica_ai.Common.{
  ℕ, ◌≡◌, ◌≢◌, ◌≤◌, refl, String, Bool, true, false, ◌&&◌, some, List, [], ◌∷◌, first, update_first,
  update_where, count, arith, eq_iff, ◌∙◌,
}
use replica_ai.Common.Raise.{ok}
use replica_ai.Instances.{
  Instance, of_owner, owned_instance, promote_to_primary, promote, demote, instance_to_response,
}
use replica_ai.Instances.Tables.{
  count-update_where_out, count-update_first_out, count-update_first_in,
}

abbrev pub is_primary_of : String → Instance → Bool
is_primary_of owner_id i = of_owner owner_id i && i.is_primary

abbrev pub primaries : String → List Instance → ℕ
primaries owner_id rows = count (is_primary_of owner_id) rows

-- No owner has more than one primary instance.
abbrev pub HasOnePrimary : List Instance → Type 0
HasOnePrimary rows = (owner_id : String) → primaries owner_id rows ≤ 1

none_after_demotion :
    (o : String) (rows : List Instance) → primaries o (update_where (of_owner o) demote rows) ≡ 0
none_after_demotion o [] = refl
none_after_demotion o (i ∷ rows) = ground (arith, none_after_demotion o rows)

first-demoted :
    (id o : String) (rows : List Instance) (i : Instance)
    → first (owned_instance id o) rows ≡ some i
    → first (owned_instance id o) (update_where (of_owner o) demote rows) ≡ some (demote i)
first-demoted id o [] i found = cc
first-demoted id o (j ∷ rows) i found = ground (arith, first-demoted id o rows i)

others_out : (o j : String) (i : Instance) → o ≢ j → of_owner o i ≡ true → is_primary_of j i ≡ false
others_out o j i ne h = ground (arith, eq_iff i.owner_id o, eq_iff i.owner_id j)

abbrev promoted : String → String → List Instance → List Instance
promoted id o rows =
    update_first (owned_instance id o) promote (update_where (of_owner o) demote rows)

promote-eq :
    (id o : String) (rows : List Instance) (i : Instance)
    → first (owned_instance id o) rows ≡ some i
    → promote_to_primary id o rows ≡ (ok (instance_to_response (promote i)), promoted id o rows)
unfolding promote_to_primary
promote-eq id o rows i found = ground arith

promoted-one :
    (id o : String) (rows : List Instance) (i : Instance)
    → first (owned_instance id o) rows ≡ some i
    → primaries o (promoted id o rows) ≡ 1
promoted-one id o rows i found =
    count-update_first_in (is_primary_of o) (owned_instance id o) promote (λ x h. ground arith)
      (update_where (of_owner o) demote rows) (none_after_demotion o rows) (demote i)
      (first-demoted id o rows i found)

first-update_first :
    (id o : String) (rows : List Instance) (i : Instance)
    → first (owned_instance id o) rows ≡ some i
    → first (owned_instance id o) (update_first (owned_instance id o) promote rows)
      ≡ some (promote i)
first-update_first id o [] i found = cc
first-update_first id o (j ∷ rows) i found = ground (arith, first-update_first id o rows i)

primaries-promoted_ne :
    (id o j : String) (rows : List Instance)
    → o ≢ j
    → primaries j (promoted id o rows) ≡ primaries j rows
primaries-promoted_ne id o j rows ne =
    count-update_first_out (is_primary_of j) (owned_instance id o) promote
      (λ x h. others_out o j x ne (ground (arith, h)))
      (λ x h. others_out o j (promote x) ne (ground (arith, h)))
      (update_where (of_owner o) demote rows)
    ∙ count-update_where_out (is_primary_of j) (of_owner o) demote (λ x h. others_out o j x ne h)
        (λ x h. others_out o j (demote x) ne h) rows

-- A promotion of an instance that the owner has leaves the owner exactly one primary instance, and
-- that is the one named: it is the answer's, and the first row with the name is primary.
-- The primaries of every other owner are as many as before.
pub promote_leaves_one :
    (id o : String) (rows : List Instance) (i : Instance)
    → first (owned_instance id o) rows ≡ some i
    → ((promote_to_primary id o rows).0 ≡ ok (instance_to_response (promote i)))
      × (primaries o (promote_to_primary id o rows).1 ≡ 1)
      × (first (owned_instance id o) (promote_to_primary id o rows).1 ≡ some (promote i))
      × ((j : String) → o ≢ j → primaries j (promote_to_primary id o rows).1 ≡ primaries j rows)
promote_leaves_one id o rows i found = rw (promote-eq id o rows i found) (
  refl,
  promoted-one id o rows i found,
  first-update_first id o (update_where (of_owner o) demote rows) (demote i)
      (first-demoted id o rows i found),
  λ j ne. primaries-promoted_ne id o j rows ne,
)
