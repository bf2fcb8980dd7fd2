-- ===== src/Sync/Tests.antt =====
-- The theorems on apps/api/app/services/sync_engine.py at concrete tables: an owner with a home
-- server, a target that holds one of two entries, and a target that does not answer.
use replica_ai.Common.{
  ◌≡◌, refl, String, Bool, true, false, none, some, List, [], ◌∷◌, arith, select,
}
use replica_ai.Common.Raise.{Result, ok}
use replica_ai.Instances.{Instance, active, local}
use replica_ai.Sync.Tables.{
  SyncDb, SyncLog, SyncConflict, SyncStatus, SyncType, ConflictResolution, Entry, Peer, answer,
  not_there, http_error,
}
use replica_ai.Sync.Transfer.{
  Link, sync_entries, selects_entry, sync_entry, check_entry_conflict, compare_hashes,
  transfer_entry, transfer_outcome, sync_knowledge_entries, remote_entry_ids, push_rows, pushed,
}
use replica_ai.Sync.Run.{
  SyncEnv, run_sync, load_instances, link_of, run_passes, total_synced, finish_sync, completed_log,
  new_log, counted_log, begin_sync, save_log,
}
use replica_ai.Sync.Watermark.{IsUnreachable, watermark, unreachable_sync_completes}
use replica_ai.Sync.Resolve.{load_conflict}

abbrev server : String → Bool → Instance
server id primary = record {
  id = id;
  owner_id = "ann";
  instance_type = local;
  hostname = id;
  last_sync_at = none;
  status = active;
  version = "0.1.0";
  capabilities = none;
  is_primary = primary;
  last_heartbeat_at = none;
  auth_token_hash = none;
  api_url = some "http";
}

abbrev entry : String → Entry
entry id = record {
  id = id;
  owner_id = "ann";
  content_type = "text";
  original_content_path = none;
  original_language = none;
  english_translation = none;
  embedding_id = none;
  metadata = none;
  created_at = 3;
}

abbrev two_entries : List Entry
two_entries = entry "letter" ∷ entry "photo" ∷ []

-- The letter is there, with another content on each server; the photo is not.
abbrev answering : String → Peer
answering name = record {
  entry_ids = answer ("letter" ∷ []);
  entry_hash = λ id. answer name;
  import_entry = λ e. answer tt;
  conversations = answer tt;
  access_rules = not_there;
}

abbrev silent : String → Peer
silent name = record {
  entry_ids = http_error;
  entry_hash = λ id. http_error;
  import_entry = λ e. http_error;
  conversations = http_error;
  access_rules = not_there;
}

abbrev env_with : (String → Peer) → SyncEnv
env_with peer = record {
  now = 10;
  log_id = "log";
  conflict_id = λ id. id;
  peer = peer;
  str_of = λ e. "error";
}

abbrev one_conflict : SyncConflict
one_conflict = record {
  id = "letter";
  sync_log_id = "old";
  entry_id = "letter";
  source_instance = "home";
  target_instance = some "away";
  target_hash = "away";
  resolution = ConflictResolution.unresolved;
  resolved_at = none;
}

abbrev old_log : SyncLog
old_log = record {
  id = "old";
  source_instance_id = "home";
  target_instance_id = "away";
  sync_type = SyncType.full;
  entries_synced = 0;
  total_entries = 1;
  status = SyncStatus.completed;
  error_message = none;
  completed_at = some 5;
}

abbrev db : SyncDb
db = record {
  instances = server "home" true ∷ server "away" false ∷ [];
  logs = old_log ∷ [];
  conflicts = one_conflict ∷ [];
  entries = two_entries;
  threads = record { owner_id = "ann"; created_at = 4 } ∷ [];
  rules = [];
}

abbrev link : Link
link = link_of (env_with answering) (server "home" true) (server "away" false)

abbrev run : (String → Peer) → Result SyncLog × SyncDb
run peer = run_sync (env_with peer) SyncType.full none "home" "away" "ann" db

abbrev begun : SyncLog
begun = new_log (env_with answering) SyncType.full (server "home" true) (server "away" false)

silent-IsUnreachable : (name : String) → IsUnreachable (silent name)
silent-IsUnreachable name = record {
  no_ids = refl;
  no_import = λ e. refl;
  no_threads = refl;
  no_rules = refl;
}

unreachable_sync_completes_example :
    (log : SyncLog) × ((run silent).0 ≡ ok log)
    × (log.status ≡ SyncStatus.completed)
    × (log.entries_synced ≡ 0)
    × (watermark "away" (run silent).1.instances ≡ some 10)
    × (select (selects_entry "ann" (some 10)) (run silent).1.entries ≡ [])
unreachable_sync_completes_example =
    unreachable_sync_completes (env_with silent) SyncType.full none "home" "away" "ann" db
      (server "home" true) (server "away" false) refl refl (silent-IsUnreachable "away")
      (omega arith, (omega arith, tt))

conflict_loaded : load_conflict "letter" "ann" db ≡ ok one_conflict
unfolding load_conflict
conflict_loaded = refl

abbrev answered_log : SyncLog
answered_log = record {
  id = "log";
  source_instance_id = "home";
  target_instance_id = "away";
  sync_type = SyncType.full;
  entries_synced = 2;
  total_entries = 2;
  status = SyncStatus.completed;
  error_message = none;
  completed_at = some 10;
}

-- The letter is in conflict; the photo and the thread are sent.
answered : (run answering).0 ≡ ok answered_log
unfolding run_sync load_instances run_passes sync_knowledge_entries remote_entry_ids push_rows
    pushed total_synced finish_sync completed_log new_log counted_log begin_sync save_log
    sync_entries sync_entry check_entry_conflict compare_hashes transfer_entry transfer_outcome
    link_of
answered = refl
