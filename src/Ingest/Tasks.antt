-- ===== src/Ingest/Tasks.antt =====
-- The tasks of apps/ai/app/core/task_tracker.py, which Redis keeps as JSON. The library that writes
-- and reads JSON is a parameter: it reads back what it wrote.
use Prim.Native.String.{◌++◌ as str_append}
use replica_ai.Common.{
  ℕ, ◌≡◌, String, Bool, true, false, Option, none, some, or_default, if◌then◌else◌,
}
use replica_ai.Redis.Texts.{ValueRedis}

pub data TaskStatus : Type 0 where
  pending processing completed failed : TaskStatus

-- The metadata of a result, for each kind of content.
pub data Metadata : Type 0 where
  of_text : String → Metadata
  of_audio : String → String → Metadata
  of_video : String → String → ℕ → Metadata
  of_document : String → ℕ → ℕ → Metadata
  of_image : String → Metadata

-- The result dictionary of an ingestion.
pub record Ingested : Type 0 where
  pub entry_id : String
  pub language : String
  pub english_translation : Option String
  pub embedding_id : Option String
  pub content_preview : String
  pub category : String
  pub original_content_path : Option String
  pub metadata : Metadata

pub record Task : Type 0 where
  pub task_id : String
  pub owner_id : String
  pub status : TaskStatus
  pub progress : ℕ
  pub result : Option Ingested
  pub error : Option String
  pub created_at : ℕ
  pub updated_at : ℕ

-- Redis and JSON. `loads` is asked for texts that `dumps` wrote.
pub record Tracker : Type 1 where
  pub Json : Type 0
  pub texts : ValueRedis Json
  pub dumps : Task → Json
  pub loads : Json → Task
  pub loads-dumps : (t : Task) → loads (dumps t) ≡ t

unfoldable pub task_key : String → String
task_key task_id = str_append "knowledge:task:" task_id

abbrev pub ttl_pending : ℕ
ttl_pending = 86400

abbrev pub ttl_completed : ℕ
ttl_completed = 3600

unfoldable pub new_task : ℕ → String → String → Task
new_task now task_id owner_id = record {
  task_id = task_id;
  owner_id = owner_id;
  status = pending;
  progress = 0;
  result = none;
  error = none;
  created_at = now;
  updated_at = now;
}

-- The arguments of `update_task`; what is `None` stays as it is.
pub record Update : Type 0 where
  pub status : Option TaskStatus
  pub progress : Option ℕ
  pub result : Option Ingested
  pub error : Option String

abbrev pub given {ℓ} : {A : Type ℓ} → Option A → Option A → Option A
given (some new) old = some new
given none old = old

unfoldable pub updated : ℕ → Update → Task → Task
updated now u t = record t {
  status = or_default t.status u.status;
  progress = or_default t.progress u.progress;
  result = given u.result t.result;
  error = given u.error t.error;
  updated_at = now;
}

abbrev pub ends : Option TaskStatus → Bool
ends (some completed) = true
ends (some failed) = true
ends (some pending) = false
ends (some processing) = false
ends none = false

unfoldable pub ttl_of_update : Update → ℕ
ttl_of_update u = if ends u.status then ttl_completed else ttl_pending

module _ (t : Tracker) where
  open t use {texts, dumps, loads, texts.{Texts, get, setex}}

  unfoldable pub create_task : ℕ → String → String → Texts → Texts
  create_task now task_id owner_id s =
      setex s (task_key task_id) ttl_pending (dumps (new_task now task_id owner_id))

  unfoldable pub update_task : ℕ → String → Update → Texts → Texts
  update_task now task_id u s = elim (get s (task_key task_id)) [
    | none ↦ s
    | some raw ↦ setex s (task_key task_id) (ttl_of_update u) (dumps (updated now u (loads raw)))
  ]

  unfoldable pub get_task : String → Texts → Option Task
  get_task task_id s = elim (get s (task_key task_id)) [ none ↦ none | some raw ↦ some (loads raw) ]
