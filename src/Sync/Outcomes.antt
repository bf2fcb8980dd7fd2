-- ===== src/Sync/Outcomes.antt =====
-- How a sync of apps/api/app/services/sync_engine.py ends.
use replica_ai.Common.{
  ℕ, ◌≡◌, ◌⊎◌, inl, inr, refl, String, Option, none, some, List, [], ◌∷◌, ◌++◌, arith, first,
  update_last, update_last-append,
}
use replica_ai.Common.Raise.{Exception, Result, ok, err, value_error}
use replica_ai.Common.Text.{take_chars}
use replica_ai.Instances.{Instance, owned_instance}
use replica_ai.Sync.Tables.{SyncDb, SyncLog, SyncStatus, SyncType, SyncConflict}
use replica_ai.Sync.Run.{
  SyncEnv, run_sync, run_passes, finish_sync, load_instances, mark_synced, new_log, load_source,
  counted_log, save_log, begin_sync, completed_log, failed_log,
}

-- The identifier, the instances and the type are those of the row that was begun.
abbrev pub IsSameLog : SyncLog → SyncLog → Type 0
IsSameLog begun log =
    (log.id ≡ begun.id)
    × (log.source_instance_id ≡ begun.source_instance_id)
    × (log.target_instance_id ≡ begun.target_instance_id)
    × (log.sync_type ≡ begun.sync_type)

-- A sync that returns: its log says so, and both instances are marked.
pub record Completes (now : ℕ) (source target : Instance) (begun : SyncLog) (before after : SyncDb)
    (result : Result SyncLog) : Type 0 where
  pub log : SyncLog
  pub returned : result ≡ ok log
  pub same_log : IsSameLog begun log
  pub status : log.status ≡ SyncStatus.completed
  pub completed_at : log.completed_at ≡ some now
  pub logs : after.logs ≡ before.logs ++ log ∷ []
  pub instances : after.instances ≡ mark_synced now source.id target.id before.instances
  pub entries : after.entries ≡ before.entries

-- A sync that raises: its log says so, with the text of the exception, and no instance is marked.
pub record Fails (env : SyncEnv) (begun : SyncLog) (before after : SyncDb) (result : Result SyncLog)
    : Type 0 where
  pub log : SyncLog
  pub error : Exception
  pub raised : result ≡ err error
  pub same_log : IsSameLog begun log
  pub status : log.status ≡ SyncStatus.failed
  pub message : log.error_message ≡ some (take_chars 1000 (env.str_of error))
  pub logs : after.logs ≡ before.logs ++ log ∷ []
  pub instances : after.instances ≡ before.instances
  pub entries : after.entries ≡ before.entries

-- The row that a sync began and counted is written again at its end.
row_written :
    (db : SyncDb) (begun counted last : SyncLog)
    → update_last (λ row. last) (update_last (λ row. counted) (db.logs ++ begun ∷ []))
      ≡ db.logs ++ last ∷ []
row_written db begun counted last =
    rw (update_last-append (λ row. counted) db.logs begun)
      (update_last-append (λ row. last) db.logs counted)

finish_settles :
    (env : SyncEnv) (kind : SyncType) (s t : Instance) (n : ℕ) (total : Result ℕ) (db : SyncDb)
    (conflicts : List SyncConflict)
    → let begun = new_log env kind s t in
      let counted = counted_log n begun in
      let out =
        finish_sync env counted total
          (record (save_log counted (begin_sync begun db)) { conflicts = conflicts }) in
      Completes env.now s t begun db out.1 out.0 ⊎ Fails env begun db out.1 out.0
unfolding finish_sync new_log counted_log save_log begin_sync completed_log failed_log
finish_settles env kind s t n (ok m) db conflicts = inl (record {
  log = _;
  returned = refl;
  same_log = (refl, refl, refl, refl);
  status = refl;
  completed_at = refl;
  logs = row_written db _ _ _;
  instances = refl;
  entries = refl;
})
finish_settles env kind s t n (err x) db conflicts = inr (record {
  log = failed_log env.now (env.str_of x) (counted_log n (new_log env kind s t));
  error = x;
  raised = refl;
  same_log = (refl, refl, refl, refl);
  status = refl;
  message = refl;
  logs = row_written db _ _ _;
  instances = refl;
  entries = refl;
})

pub passes_settle :
    (env : SyncEnv) (kind : SyncType) (since : Option ℕ) (owner : String) (s t : Instance)
    (db : SyncDb)
    → let begun = new_log env kind s t in
      let out = run_passes env kind since owner s t db in
      Completes env.now s t begun db out.1 out.0 ⊎ Fails env begun db out.1 out.0
unfolding run_passes
passes_settle env kind since owner s t db = finish_settles env kind s t _ _ db _

load_refused :
    (source_id target_id : String) (s t : Option Instance)
    → (s ≡ none) ⊎ (t ≡ none)
    → (message : String) × (load_source source_id s target_id t ≡ err (value_error message))
load_refused source_id target_id none t h = (_, refl)
load_refused source_id target_id (some s) none h = (_, refl)
load_refused source_id target_id (some s) (some t) h = ground arith

-- A sync with an instance that the owner does not have raises a `ValueError` and changes nothing.
pub foreign_sync_refused :
    (env : SyncEnv) (kind : SyncType) (since : Option ℕ) (source_id target_id owner : String)
    (db : SyncDb)
    → (first (owned_instance source_id owner) db.instances ≡ none)
      ⊎ (first (owned_instance target_id owner) db.instances ≡ none)
    → (message : String) × (run_sync env kind since source_id target_id owner db
        ≡ (err (value_error message), db))
unfolding run_sync load_instances
foreign_sync_refused env kind since source_id target_id owner db h =
    let (message, e) =
      load_refused source_id target_id (first (owned_instance source_id owner) db.instances)
        (first (owned_instance target_id owner) db.instances) h in
    (message, rw e refl)
