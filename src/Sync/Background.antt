-- ===== src/Sync/Background.antt =====
-- What the background job of apps/api/app/services/sync_engine.py reports.
use replica_ai.Common.{
  ℕ, ◌+◌, ◌≡◌, String, Bool, true, false, Option, some, List, [], ◌∷◌, ◌++◌, select, count, arith,
  inl, inr, ◌⊎◌, if◌then◌else◌,
}
use replica_ai.Common.Raise.{Result, ok, err}
use replica_ai.Instances.{Instance}
use replica_ai.Sync.Tables.{SyncDb, SyncLog, SyncStatus, SyncType}
use replica_ai.Sync.Run.{
  SyncEnv, incremental_sync, run_sync, load_instances, with_instances, new_log,
}
use replica_ai.Sync.Outcomes.{Completes, Fails, passes_settle}
use replica_ai.Sync.Auto.{
  triggers, since_of, sync_targets, sync_primaries, auto_sync_check, is_online_other,
  is_online_primary,
}

abbrev pub is_completed : SyncStatus → Bool
is_completed SyncStatus.pending = false
is_completed SyncStatus.in_progress = false
is_completed SyncStatus.completed = true
is_completed SyncStatus.failed = false

abbrev pub completed_logs : SyncDb → ℕ
completed_logs db = count (λ log. is_completed log.status) db.logs

count-append_one :
    (logs : List SyncLog) (log : SyncLog)
    → count (λ x. is_completed x.status) (logs ++ log ∷ [])
      ≡ count (λ x. is_completed x.status) logs + (if is_completed log.status then 1 else 0)
count-append_one [] log = omega arith
count-append_one (x ∷ logs) log = omega (arith, count-append_one logs log)

settled_count :
    (env : SyncEnv) (s t : Instance) (begun : SyncLog) (db after : SyncDb) (result : Result SyncLog)
    → Completes env.now s t begun db after result ⊎ Fails env begun db after result
    → completed_logs after ≡ completed_logs db + triggers result
settled_count env s t begun db after result (inl c) =
    rw c.logs (rw c.returned (ground (arith, count-append_one db.logs c.log, c.status)))
settled_count env s t begun db after result (inr f) =
    rw f.logs (rw f.raised (ground (arith, count-append_one db.logs f.log, f.status)))

loaded_count :
    (env : SyncEnv) (kind : SyncType) (since : Option ℕ) (owner : String)
    (loaded : Result (Instance × Instance)) (db : SyncDb)
    → let out = with_instances env kind since owner loaded db in
      completed_logs out.1 ≡ completed_logs db + triggers out.0
loaded_count env kind since owner (err e) db = omega arith
loaded_count env kind since owner (ok (s, t)) db =
    settled_count env s t (new_log env kind s t) db _ _ (passes_settle env kind since owner s t db)

sync_count :
    (env : SyncEnv) (s t owner : String) (since : ℕ) (db : SyncDb)
    → let out = incremental_sync env s t owner since db in
      completed_logs out.1 ≡ completed_logs db + triggers out.0
unfolding incremental_sync run_sync
sync_count env s t owner since db =
    loaded_count env SyncType.incremental (some since) owner (load_instances s t owner db.instances)
      db

targets_count :
    (env : String → String → SyncEnv) (primary : Instance) (targets : List Instance) (db : SyncDb)
    → let out = sync_targets env primary targets db in
      completed_logs out.1 ≡ completed_logs db + out.0
unfolding sync_targets
targets_count env primary [] db = omega arith
targets_count env primary (t ∷ targets) db =
    let e = env primary.id t.id in
    let since = since_of e.now t db in
    let db1 = (incremental_sync e primary.id t.id primary.owner_id since db).1 in
    omega (
      arith,
      sync_count e primary.id t.id primary.owner_id since db,
      targets_count env primary targets db1,
    )

primaries_count :
    (env : String → String → SyncEnv) (primaries : List Instance) (db : SyncDb)
    → let out = sync_primaries env primaries db in completed_logs out.1 ≡ completed_logs db + out.0
unfolding sync_primaries
primaries_count env [] db = omega arith
primaries_count env (p ∷ primaries) db =
    let targets = select (is_online_other p) db.instances in
    let db1 = (sync_targets env p targets db).1 in
    omega (arith, targets_count env p targets db, primaries_count env primaries db1)

-- The number that the background job returns is exactly the number of logs of completed syncs that
-- it has added, whatever the instances answer: a sync that raises is not counted, and does not
-- keep the job from the syncs after it.
pub auto_counts_completed :
    (env : String → String → SyncEnv) (db : SyncDb)
    → completed_logs (auto_sync_check env db).1 ≡ completed_logs db + (auto_sync_check env db).0
unfolding auto_sync_check
auto_counts_completed env db = primaries_count env (select is_online_primary db.instances) db
