-- ===== src/Instances/History.antt =====
-- Every history of the registry of apps/api/app/services/instance_manager.py.
use replica_ai.Common.{
  ℕ, ◌≡◌, ◌≤◌, refl, String, Option, none, List, first, arith, eq_iff, Option-cases, inl, inr,
  Bool-cases, str_eq, sym,
}
use replica_ai.Instances.{
  Instance, InstanceType, RegisterEnv, of_owner, owned_instance, register_instance, new_instance,
  discover_instances, probed, promote_to_primary, record_heartbeat, beat, deregister_instance,
  check_stale_instances, is_stale, take_offline,
}
use replica_ai.Instances.Tables.{
  count-append, count-update_where, count-update_first, count-delete_first,
}
use replica_ai.Instances.Primary.{is_primary_of, primaries, HasOnePrimary, promote_leaves_one}

-- One operation of the registry, with any arguments and any owner.
pub data Step (rows : List Instance) : List Instance → Type 0 where
  registers :
      (env : RegisterEnv) (o : String) (kind : InstanceType) (hostname : String)
      (url : Option String) (capabilities : Option (List String))
      → Step rows (register_instance env o kind hostname url capabilities rows).1
  discovers :
      (probe : String → Option ℕ) (o : String) → Step rows (discover_instances probe o rows).1
  promotes : (id o : String) → Step rows (promote_to_primary id o rows).1
  beats : (now : ℕ) (id o : String) → Step rows (record_heartbeat now id o rows).1
  deregisters : (id o : String) → Step rows (deregister_instance id o rows).1
  marks : (timeout now : ℕ) → Step rows (check_stale_instances timeout now rows).1

pub data Reach (rows : List Instance) : List Instance → Type 0 where
  start : Reach rows rows
  later : {mid last : List Instance} → Reach rows mid → Step mid last → Reach rows last

primaries-register :
    (j : String) (rows : List Instance) (env : RegisterEnv) (o : String) (kind : InstanceType)
    (hostname : String) (url : Option String) (capabilities : Option (List String))
    → primaries j (register_instance env o kind hostname url capabilities rows).1 ≡ primaries j rows
unfolding register_instance new_instance
primaries-register j rows env o kind hostname url capabilities =
    count-append (is_primary_of j) rows (new_instance env o kind hostname url capabilities)
      (ground arith)

primary-probed :
    (j : String) (probe : String → Option ℕ) (i : Instance)
    → is_primary_of j (probed probe i) ≡ is_primary_of j i
unfolding probed
primary-probed j probe i = ground arith

primaries-discover :
    (j : String) (rows : List Instance) (probe : String → Option ℕ) (o : String)
    → primaries j (discover_instances probe o rows).1 ≡ primaries j rows
unfolding discover_instances
primaries-discover j rows probe o =
    count-update_where (is_primary_of j) (of_owner o) (probed probe) (primary-probed j probe) rows

primaries-heartbeat :
    (j : String) (rows : List Instance) (now : ℕ) (id o : String)
    → primaries j (record_heartbeat now id o rows).1 ≡ primaries j rows
unfolding record_heartbeat
primaries-heartbeat j rows now id o =
    ground (
      arith,
      count-update_first (is_primary_of j) (owned_instance id o) (beat now) (λ x. refl) rows,
    )

primaries-deregister :
    (j : String) (rows : List Instance) (id o : String)
    → primaries j (deregister_instance id o rows).1 ≤ primaries j rows
unfolding deregister_instance
primaries-deregister j rows id o =
    ground (arith, count-delete_first (is_primary_of j) (owned_instance id o) rows)

primaries-stale :
    (j : String) (rows : List Instance) (timeout now : ℕ)
    → primaries j (check_stale_instances timeout now rows).1 ≡ primaries j rows
unfolding check_stale_instances
primaries-stale j rows timeout now =
    count-update_where (is_primary_of j) (is_stale timeout now) take_offline (λ x. refl) rows

promotion_refused :
    (id o : String) (rows : List Instance)
    → first (owned_instance id o) rows ≡ none
    → (promote_to_primary id o rows).1 ≡ rows
unfolding promote_to_primary
promotion_refused id o rows e = ground arith

primaries-promote :
    (j : String) (rows : List Instance) (id o : String)
    → primaries j rows ≤ 1
    → primaries j (promote_to_primary id o rows).1 ≤ 1
primaries-promote j rows id o h = elim (Option-cases (first (owned_instance id o) rows)) [
  | inl e ↦ rw (promotion_refused id o rows e) h
  | inr (i, e) ↦ elim (Bool-cases (str_eq o j)) [
    | inl same ↦
        rw (sym ((eq_iff o j).0 same)) (omega (arith, (promote_leaves_one id o rows i e).1))
    | inr other ↦ rw ((promote_leaves_one id o rows i e).3 j (λ q. ground (arith, eq_iff o j))) h
  ]
]

Step-HasOnePrimary :
    {rows after : List Instance} → Step rows after → HasOnePrimary rows → HasOnePrimary after
Step-HasOnePrimary (registers env o kind hostname url capabilities) h j =
    rw (primaries-register j _ env o kind hostname url capabilities) (h j)
Step-HasOnePrimary (discovers probe o) h j = rw (primaries-discover j _ probe o) (h j)
Step-HasOnePrimary (promotes id o) h j = primaries-promote j _ id o (h j)
Step-HasOnePrimary (beats now id o) h j = rw (primaries-heartbeat j _ now id o) (h j)
Step-HasOnePrimary {rows} (deregisters id o) h j =
    omega (arith, primaries-deregister j rows id o, h j)
Step-HasOnePrimary (marks timeout now) h j = rw (primaries-stale j _ timeout now) (h j)

-- Where no owner has more than one primary instance to begin with, as in an empty table, none has
-- more than one after any sequence of registrations, discoveries, promotions, heartbeats,
-- removals and stale checks, each with any arguments.
pub Reach-HasOnePrimary :
    {rows after : List Instance} → HasOnePrimary rows → Reach rows after → HasOnePrimary after
Reach-HasOnePrimary h start = h
Reach-HasOnePrimary h (later path step) = Step-HasOnePrimary step (Reach-HasOnePrimary h path)
