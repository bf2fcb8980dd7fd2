-- ===== src/Sync/Choices.antt =====
-- Who may resolve a conflict of apps/api/app/services/sync_engine.py, and what is recorded where
-- the entry could not be sent.
use replica_ai.Common.{
  ℕ, ◌≡◌, refl, String, true, Option, none, some, first, update_first, or_default, arith,
}
use replica_ai.Common.Raise.{ok}
use replica_ai.Instances.{Instance, owned_instance}
use replica_ai.Sync.Tables.{
  SyncDb, SyncLog, SyncConflict, ConflictResolution, keep_source, Entry, Peer,
}
use replica_ai.Sync.Transfer.{left}
use replica_ai.Sync.Run.{has_id}
use replica_ai.Sync.Watermark.{is_unanswered, transfer_unanswered}
use replica_ai.Sync.Resolve.{
  load_conflict, has_conflict_id, has_log_id, has_entry_id, conflict_not_found, resolve_conflict,
  apply_resolution, resend, resolved,
}

foreign_not_loaded :
    (id owner : String) (db : SyncDb) (c : SyncConflict) (log : SyncLog)
    → first (has_conflict_id id) db.conflicts ≡ some c
    → first (has_log_id c.sync_log_id) db.logs ≡ some log
    → first (owned_instance log.source_instance_id owner) db.instances ≡ none
    → load_conflict id owner db ≡ conflict_not_found
unfolding load_conflict
foreign_not_loaded id owner db c log found logged foreign = ground arith

-- A conflict of a sync whose source instance the owner does not have cannot be resolved by that
-- owner: the call raises as if there were no such conflict, and changes nothing.
pub foreign_conflict_refused :
    (now : ℕ) (peer : String → Peer) (id : String) (resolution : ConflictResolution)
    (owner : String) (db : SyncDb) (c : SyncConflict) (log : SyncLog)
    → first (has_conflict_id id) db.conflicts ≡ some c
    → first (has_log_id c.sync_log_id) db.logs ≡ some log
    → first (owned_instance log.source_instance_id owner) db.instances ≡ none
    → resolve_conflict now peer id resolution owner db ≡ (conflict_not_found, db)
unfolding resolve_conflict
foreign_conflict_refused now peer id resolution owner db c log found logged foreign =
    rw (foreign_not_loaded id owner db c log found logged foreign) refl

resend_unanswered :
    (peer : String → Peer) (target : Option Instance) (entry : Option Entry)
    → ((name : String) (e : Entry) → is_unanswered ((peer name).import_entry e) ≡ true)
    → resend peer target entry ≡ ok left
resend_unanswered peer none entry silent = refl
resend_unanswered peer (some target) none silent = refl
resend_unanswered peer (some target) (some e) silent =
    ground (arith, transfer_unanswered ((peer target.id).import_entry e) (silent target.id e))

apply_unanswered :
    (peer : String → Peer) (c : SyncConflict) (db : SyncDb)
    → ((name : String) (e : Entry) → is_unanswered ((peer name).import_entry e) ≡ true)
    → apply_resolution peer keep_source c db ≡ ok left
unfolding apply_resolution
apply_unanswered peer c db silent = ground (
  arith,
  resend_unanswered peer (first (has_id (or_default "" c.target_instance)) db.instances)
      (first (has_entry_id c.entry_id) db.entries) silent,
)

-- Where no instance takes an entry, a conflict is recorded as resolved for the source all the same,
-- with the time, though nothing was sent.
pub unsent_resolution_recorded :
    (now : ℕ) (peer : String → Peer) (id owner : String) (db : SyncDb) (c : SyncConflict)
    → load_conflict id owner db ≡ ok c
    → ((name : String) (e : Entry) → is_unanswered ((peer name).import_entry e) ≡ true)
    → (apply_resolution peer keep_source c db ≡ ok left)
      × (resolve_conflict now peer id keep_source owner db ≡ (
        ok (resolved now keep_source c),
        record db {
          conflicts = update_first (has_conflict_id id) (resolved now keep_source) db.conflicts;
        },
      ))
unfolding resolve_conflict
unsent_resolution_recorded now peer id owner db c loaded silent =
    (apply_unanswered peer c db silent, rw loaded (rw (apply_unanswered peer c db silent) refl))
