-- ===== src/Sync/Run.antt =====
-- `full_sync` and `incremental_sync` of apps/api/app/services/sync_engine.py: the same body, but
-- for the type of the log and the bound on the age of the rows.
use Prim.Native.String.{◌++◌ as str_append}
use replica_ai.Common.{
  ℕ, ◌+◌, String, Bool, Option, none, some, List, [], ◌∷◌, ◌++◌, first, select, length, str_eq,
  update_first, update_last,
}
use replica_ai.Common.Raise.{Exception, Result, ok, err, value_error, ◌>>=◌}
use replica_ai.Common.Text.{take_chars}
use replica_ai.Instances.{Instance, owned_instance}
use replica_ai.Sync.Tables.{SyncDb, SyncLog, SyncStatus, SyncType, Peer}
use replica_ai.Sync.Transfer.{Link, sync_knowledge_entries, push_rows, selects_entry, selects_dated}

-- What one sync draws and is answered: the clock, identifiers, the answers of the instances by
-- their identifiers, and the text of an exception.
pub record SyncEnv : Type 0 where
  pub now : ℕ
  pub log_id : String
  pub conflict_id : String → String
  pub peer : String → Peer
  pub str_of : Exception → String

abbrev pub missing_instance {ℓ} : {A : Type ℓ} → String → String → Result A
missing_instance side id =
    err (value_error (str_append side (str_append " instance " (str_append id " not found"))))

abbrev pub load_target : Instance → String → Option Instance → Result (Instance × Instance)
load_target source id none = missing_instance "Target" id
load_target source id (some target) = ok (source, target)

abbrev pub load_source :
    String → Option Instance → String → Option Instance → Result (Instance × Instance)
load_source source_id none target_id target = missing_instance "Source" source_id
load_source source_id (some source) target_id target = load_target source target_id target

-- `_load_instances`: both must belong to the owner.
unfoldable pub load_instances :
    String → String → String → List Instance → Result (Instance × Instance)
load_instances source_id target_id owner_id rows =
    load_source source_id (first (owned_instance source_id owner_id) rows) target_id
      (first (owned_instance target_id owner_id) rows)

unfoldable pub link_of : SyncEnv → Instance → Instance → Link
link_of env source target = record {
  source = source;
  target = target;
  source_peer = env.peer source.id;
  target_peer = env.peer target.id;
  log_id = env.log_id;
  conflict_id = env.conflict_id;
}

-- The total over the three passes; the first exception ends the sync.
unfoldable pub total_synced : Result (ℕ × ℕ) → Result ℕ → Result ℕ → Result ℕ
total_synced knowledge threads rules = do
  counts ← knowledge
  thread_count ← threads
  rule_count ← rules
  ok (counts.0 + thread_count + rule_count)

-- The row of the log as it begins.
unfoldable pub new_log : SyncEnv → SyncType → Instance → Instance → SyncLog
new_log env kind source target = record {
  id = env.log_id;
  source_instance_id = source.id;
  target_instance_id = target.id;
  sync_type = kind;
  entries_synced = 0;
  total_entries = 0;
  status = SyncStatus.in_progress;
  error_message = none;
  completed_at = none;
}

-- `sync_log.total_entries += len(entries)`
unfoldable pub counted_log : ℕ → SyncLog → SyncLog
counted_log n log = record log { total_entries = log.total_entries + n }

-- `db.add(sync_log)` with its commit: the row is in the table, in progress, before the passes begin.
unfoldable pub begin_sync : SyncLog → SyncDb → SyncDb
begin_sync log db = record db { logs = db.logs ++ log ∷ [] }

-- A commit of the log that was added last, which is that of this sync: one sync runs at a time here.
unfoldable pub save_log : SyncLog → SyncDb → SyncDb
save_log log db = record db { logs = update_last (λ row. log) db.logs }

unfoldable pub completed_log : ℕ → ℕ → SyncLog → SyncLog
completed_log now n log = record log {
  entries_synced = n;
  status = SyncStatus.completed;
  completed_at = some now;
}

unfoldable pub failed_log : ℕ → String → SyncLog → SyncLog
failed_log now message log = record log {
  status = SyncStatus.failed;
  error_message = some (take_chars 1000 message);
  completed_at = some now;
}

abbrev pub has_id : String → Instance → Bool
has_id id i = str_eq i.id id

abbrev pub synced_at : ℕ → Instance → Instance
synced_at now i = record i { last_sync_at = some now }

-- `last_sync_at` of both instances.
unfoldable pub mark_synced : ℕ → String → String → List Instance → List Instance
mark_synced now source_id target_id rows =
    update_first (has_id target_id) (synced_at now)
      (update_first (has_id source_id) (synced_at now) rows)

-- The end of a sync: the row that was in progress is written again. What is no `Exception`, such as a
-- cancellation, passes the handler, and a commit that fails leaves the row too; neither is modelled.
unfoldable pub finish_sync : SyncEnv → SyncLog → Result ℕ → SyncDb → Result SyncLog × SyncDb
unfolding completed_log failed_log mark_synced save_log
finish_sync env log (ok n) db =
    let done = completed_log env.now n log in
    (
      ok done,
      save_log done (record db {
        instances = mark_synced env.now log.source_instance_id log.target_instance_id db.instances;
      }),
    )
finish_sync env log (err e) db = (err e, save_log (failed_log env.now (env.str_of e) log) db)

-- The body between the load of the instances and the end.
unfoldable pub run_passes :
    SyncEnv → SyncType → Option ℕ → String → Instance → Instance → SyncDb → Result SyncLog × SyncDb
unfolding link_of new_log counted_log begin_sync save_log
run_passes env kind since owner_id source target db =
    let log = new_log env kind source target in
    let begun = begin_sync log db in
    let l = link_of env source target in
    let entries = select (selects_entry owner_id since) db.entries in
    let counted = counted_log (length entries) log in
    let (knowledge, conflicts) = sync_knowledge_entries l entries db.conflicts in
    let threads =
      push_rows l l.target_peer.conversations (select (selects_dated owner_id since) db.threads) in
    let rules =
      push_rows l l.target_peer.access_rules (select (selects_dated owner_id since) db.rules) in
    finish_sync env counted (total_synced knowledge threads rules)
      (record (save_log counted begun) { conflicts = conflicts })

abbrev pub with_instances :
    SyncEnv
    → SyncType
    → Option ℕ
    → String
    → Result (Instance × Instance)
    → SyncDb
    → Result SyncLog × SyncDb
with_instances env kind since owner_id (err e) db = (err e, db)
with_instances env kind since owner_id (ok (source, target)) db =
    run_passes env kind since owner_id source target db

unfoldable pub run_sync :
    SyncEnv → SyncType → Option ℕ → String → String → String → SyncDb → Result SyncLog × SyncDb
run_sync env kind since source_id target_id owner_id db =
    with_instances env kind since owner_id
      (load_instances source_id target_id owner_id db.instances) db

unfoldable pub full_sync : SyncEnv → String → String → String → SyncDb → Result SyncLog × SyncDb
full_sync env source_id target_id owner_id db =
    run_sync env SyncType.full none source_id target_id owner_id db

unfoldable pub incremental_sync :
    SyncEnv → String → String → String → ℕ → SyncDb → Result SyncLog × SyncDb
incremental_sync env source_id target_id owner_id since db =
    run_sync env SyncType.incremental (some since) source_id target_id owner_id db
