-- ===== src/Ingest/World.antt =====
-- What the ingestion of apps/ai/app/services/knowledge.py works on: the tasks in Redis, the points in
-- Qdrant, the files on disk, and the libraries that it calls, which are parameters.
use replica_ai.Common.{ℕ, String, Bool, Option, List}
use replica_ai.Common.Raise.{Exception, Result}
use replica_ai.Ingest.Tasks.{Tracker}

-- A point of the collection: the payload of `QdrantService.upsert_embedding`.
pub record Point : Type 0 where
  pub id : String
  pub entry_id : String
  pub owner_id : String
  pub content_type : String
  pub language : String
  pub chunk_index : ℕ
  pub content_preview : Option String
  pub category : Option String

pub record SavedFile : Type 0 where
  pub owner_id : String
  pub content_type : String
  pub entry_id : String
  pub filename : String

pub record World (Texts : Type 0) : Type 0 where
  pub tasks : Texts
  pub points : List Point
  pub files : List SavedFile

-- The libraries and services, each with what it answers in one job.
pub record Library : Type 1 where
  pub tracker : Tracker
  pub Bytes : Type 0
  pub Vector : Type 0
  pub size : Bytes → ℕ
  -- `str.strip`, `str.lower`, the removal of quotes and dots, and `x in y`
  pub strip : String → String
  pub lower : String → String
  pub strip_marks : String → String
  pub within : String → String → Bool
  -- `Path(filename).suffix`, and the stem with spaces for `_` and `-`
  pub suffix : String → String
  pub spaced_stem : String → String
  -- `str(exc)`
  pub describe : Exception → String
  -- `langdetect.detect`
  pub detect : String → Result String
  -- The field `response` of what the language model answers to a prompt.
  pub generate : String → Result (Option String)
  pub embed : String → Result Vector
  -- Qdrant: the collection is made ready, and a point is written.
  pub prepare : Vector → Result (Unit {0})
  pub upsert : Vector → Point → Result (Unit {0})
  -- The n-th identifier that `uuid4` draws.
  pub point_id : ℕ → String
  -- The file that is written under owner, content type, entry and name: its relative path.
  pub write_file : String → String → String → String → Result String
  -- What whisper hears: the text and the language, if it tells one.
  pub transcribed : Result (String × Option String)
  -- The exit status of ffmpeg, and the names of the frames that it leaves.
  pub audio_status : Result ℕ
  pub frames : Result (List String)
  pub decoded : Bytes → String
  pub pdf_text : Bytes → Result String
  pub docx_text : Bytes → Result String
