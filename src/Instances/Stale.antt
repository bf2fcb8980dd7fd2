-- ===== src/Instances/Stale.antt =====
-- Heartbeats and the stale check of apps/api/app/services/instance_manager.py.
use replica_ai.Common.{
  ℕ, ◌+◌, ◌≡◌, ◌≤◌, refl, String, false, some, List, [], ◌∷◌, first, update_first, update_where,
  count, arith,
}
use replica_ai.Common.Time.{seconds}
use replica_ai.Instances.{
  Instance, owned_instance, record_heartbeat, beat, check_stale_instances, is_stale, take_offline,
}

offline_not_stale : (timeout now : ℕ) (i : Instance) → is_stale timeout now (take_offline i) ≡ false
unfolding is_stale
offline_not_stale timeout now i = refl

none_stale :
    (timeout now : ℕ) (rows : List Instance)
    → count (is_stale timeout now) (update_where (is_stale timeout now) take_offline rows) ≡ 0
none_stale timeout now [] = refl
none_stale timeout now (i ∷ rows) =
    ground (arith, offline_not_stale timeout now i, none_stale timeout now rows)

unchanged :
    (timeout now : ℕ) (rows : List Instance)
    → count (is_stale timeout now) rows ≡ 0
    → update_where (is_stale timeout now) take_offline rows ≡ rows
unchanged timeout now [] e = refl
unchanged timeout now (i ∷ rows) e = ground (arith, unchanged timeout now rows)

-- A second check at the same time finds nothing to mark, and changes nothing.
pub stale_check_settles :
    (timeout now : ℕ) (rows : List Instance)
    → check_stale_instances timeout now (check_stale_instances timeout now rows).1
      ≡ (0, (check_stale_instances timeout now rows).1)
unfolding check_stale_instances
stale_check_settles timeout now rows =
    let after = update_where (is_stale timeout now) take_offline rows in
    simp (none_stale timeout now rows, unchanged timeout now after (none_stale timeout now rows))

-- The row of an instance that is not stale is found again as it was.
kept :
    (timeout now : ℕ) (id o : String) (i : Instance) (rows : List Instance)
    → first (owned_instance id o) rows ≡ some i
    → is_stale timeout now i ≡ false
    → first (owned_instance id o) (update_where (is_stale timeout now) take_offline rows) ≡ some i
kept timeout now id o i [] found fresh = cc
kept timeout now id o i (j ∷ rows) found fresh = ground (arith, kept timeout now id o i rows)

beaten :
    (now : ℕ) (id o : String) (i : Instance) (rows : List Instance)
    → first (owned_instance id o) rows ≡ some i
    → first (owned_instance id o) (update_first (owned_instance id o) (beat now) rows)
      ≡ some (beat now i)
beaten now id o i [] found = cc
beaten now id o i (j ∷ rows) found = ground (arith, beaten now id o i rows)

rows-record_heartbeat :
    (now : ℕ) (id o : String) (i : Instance) (rows : List Instance)
    → first (owned_instance id o) rows ≡ some i
    → (record_heartbeat now id o rows).1 ≡ update_first (owned_instance id o) (beat now) rows
unfolding record_heartbeat
rows-record_heartbeat now id o i rows found = ground arith

beat_not_stale :
    (timeout now later : ℕ) (i : Instance)
    → later ≤ now + seconds timeout
    → is_stale timeout later (beat now i) ≡ false
unfolding is_stale
beat_not_stale timeout now later i soon = ground arith

-- An instance that has just sent a heartbeat, also one that was marked offline, is active, and
-- every stale check up to `timeout` seconds later leaves it so.
pub heartbeat_keeps_active :
    (timeout now later : ℕ) (id o : String) (i : Instance) (rows : List Instance)
    → first (owned_instance id o) rows ≡ some i
    → later ≤ now + seconds timeout
    → first
        (owned_instance id o)
        (check_stale_instances timeout later (record_heartbeat now id o rows).1).1
      ≡ some (beat now i)
unfolding check_stale_instances
heartbeat_keeps_active timeout now later id o i rows found soon =
    rw (rows-record_heartbeat now id o i rows found) (
      kept timeout later id o (beat now i) (update_first (owned_instance id o) (beat now) rows)
        (beaten now id o i rows found) (beat_not_stale timeout now later i soon))
