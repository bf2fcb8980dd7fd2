-- ===== src/Sync/Tables.antt =====
-- The rows of apps/api/app/models/owner.py that a sync reads and writes, and the answers of the
-- instances to its calls.
use replica_ai.Common.{ℕ, String, Option, List}
use replica_ai.Common.Raise.{Exception}
use replica_ai.Instances.{Instance}

pub data SyncStatus : Type 0 where
  pending in_progress completed failed : SyncStatus

pub data SyncType : Type 0 where
  full incremental model_weights : SyncType

pub data ConflictResolution : Type 0 where
  keep_source keep_target keep_both unresolved : ConflictResolution

pub record SyncLog : Type 0 where
  pub id : String
  pub source_instance_id : String
  pub target_instance_id : String
  pub sync_type : SyncType
  pub entries_synced : ℕ
  pub total_entries : ℕ
  pub status : SyncStatus
  pub error_message : Option String
  pub completed_at : Option ℕ

-- The identity and the host name of one side of a conflict; `hash` is the target's.
pub record SyncConflict : Type 0 where
  pub id : String
  pub sync_log_id : String
  pub entry_id : String
  pub source_instance : String
  pub target_instance : Option String
  pub target_hash : String
  pub resolution : ConflictResolution
  pub resolved_at : Option ℕ

-- A knowledge entry, with what an import sends of it.
pub record Entry : Type 0 where
  pub id : String
  pub owner_id : String
  pub content_type : String
  pub original_content_path : Option String
  pub original_language : Option String
  pub english_translation : Option String
  pub embedding_id : Option String
  pub metadata : Option String
  pub created_at : ℕ

-- What the queries for threads and for access rules test of a row.
pub record Dated : Type 0 where
  pub owner_id : String
  pub created_at : ℕ

pub record SyncDb : Type 0 where
  pub instances : List Instance
  pub logs : List SyncLog
  pub conflicts : List SyncConflict
  pub entries : List Entry
  pub threads : List Dated
  pub rules : List Dated

-- A call of an instance: an answer, status 404, an `httpx.HTTPError` (no connection, or another
-- error status through `raise_for_status`), or another exception; for the hash of an entry that is
-- one raised on reading the body.
pub data Reply (A : Type 0) : Type 0 where
  answer : A → Reply A
  not_there : Reply A
  http_error : Reply A
  raises : Exception → Reply A

-- The answers of one instance during a sync.
pub record Peer : Type 0 where
  pub entry_ids : Reply (List String)
  pub entry_hash : String → Reply String
  pub import_entry : Entry → Reply (Unit {0})
  pub conversations : Reply (Unit {0})
  pub access_rules : Reply (Unit {0})
