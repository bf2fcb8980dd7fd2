-- ===== src/Sync/Auto.antt =====
-- `SyncEngine.auto_sync_check` of apps/api/app/services/sync_engine.py: the background job that
-- syncs each owner's primary instance to the owner's other instances.
use replica_ai.Common.{
  ℕ, ◌+◌, ◌-◌, String, Bool, not, ◌&&◌, List, [], ◌∷◌, select, str_eq, or_default,
}
use replica_ai.Common.Raise.{Result, ok, err}
use replica_ai.Common.Time.{days}
use replica_ai.Instances.{Instance, is_offline}
use replica_ai.Sync.Tables.{SyncDb, SyncLog}
use replica_ai.Sync.Run.{SyncEnv, incremental_sync}
use replica_ai.Sync.Watermark.{watermark}

-- The query for the primaries.
unfoldable pub is_online_primary : Instance → Bool
unfolding is_offline
is_online_primary i = i.is_primary && not (is_offline i.status)

-- The query for the other instances of a primary's owner.
unfoldable pub is_online_other : Instance → Instance → Bool
unfolding is_offline
is_online_other primary i =
    str_eq i.owner_id primary.owner_id && not (str_eq i.id primary.id) && not (is_offline i.status)

-- `target.last_sync_at or (_utcnow() - timedelta(days=30))`; the clock is more than thirty days past
-- its origin.
unfoldable pub since_of : ℕ → Instance → SyncDb → ℕ
since_of now target db = or_default (now - days 30) (watermark target.id db.instances)

abbrev pub triggers : Result SyncLog → ℕ
triggers (ok log) = 1
triggers (err e) = 0

-- The inner loop, which goes on after an exception; `env` draws for each pair of instances.
unfoldable pub sync_targets :
    (String → String → SyncEnv) → Instance → List Instance → SyncDb → ℕ × SyncDb
unfolding incremental_sync since_of
sync_targets env primary [] db = (0, db)
sync_targets env primary (target ∷ targets) db =
    let e = env primary.id target.id in
    let (result, db1) =
      incremental_sync e primary.id target.id primary.owner_id (since_of e.now target db) db in
    let (n, db2) = sync_targets env primary targets db1 in (triggers result + n, db2)

unfoldable pub sync_primaries : (String → String → SyncEnv) → List Instance → SyncDb → ℕ × SyncDb
unfolding is_online_other sync_targets
sync_primaries env [] db = (0, db)
sync_primaries env (primary ∷ primaries) db =
    let (n, db1) = sync_targets env primary (select (is_online_other primary) db.instances) db in
    let (m, db2) = sync_primaries env primaries db1 in (n + m, db2)

unfoldable pub auto_sync_check : (String → String → SyncEnv) → SyncDb → ℕ × SyncDb
unfolding sync_primaries is_online_primary
auto_sync_check env db = sync_primaries env (select is_online_primary db.instances) db
