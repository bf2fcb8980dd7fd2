-- ===== src/Ingest/Uploads.antt =====
-- The routes of apps/ai/app/routers/knowledge.py that take a file: a wrong extension or size is
-- answered with 400; else the task is created and the job runs after the answer.
use replica_ai.Common.{
  ℕ, ◌*◌, String, Bool, not, Option, List, [], ◌∷◌, or_default, truthy, contains, ltb,
  if◌then◌else◌,
}
use replica_ai.Ingest.Tasks.{Task, create_task, get_task}
use replica_ai.Ingest.World.{Library}
use replica_ai.Ingest.Knowledge.{State}
use replica_ai.Ingest.Background.{
  Upload, ingest_audio_background, ingest_video_background, ingest_document_background,
  ingest_image_background,
}

-- What a route takes: the extensions, the largest size, and the name of a file that has none.
pub record Format : Type 0 where
  pub extensions : List String
  pub max_size : ℕ
  pub default_name : String

abbrev pub megabytes : ℕ → ℕ
megabytes n = n * 1024 * 1024

abbrev pub audio_format : Format
audio_format = record {
  extensions = ".wav" ∷ ".mp3" ∷ ".m4a" ∷ ".ogg" ∷ ".flac" ∷ ".webm" ∷ [];
  max_size = megabytes 50;
  default_name = "audio";
}

abbrev pub video_format : Format
video_format = record {
  extensions = ".mp4" ∷ ".mov" ∷ ".avi" ∷ ".mkv" ∷ ".webm" ∷ [];
  max_size = megabytes 500;
  default_name = "video";
}

abbrev pub document_format : Format
document_format = record {
  extensions = ".pdf" ∷ ".docx" ∷ ".txt" ∷ ".csv" ∷ [];
  max_size = megabytes 20;
  default_name = "document";
}

abbrev pub image_format : Format
image_format = record {
  extensions = ".jpg" ∷ ".jpeg" ∷ ".png" ∷ ".gif" ∷ ".webp" ∷ ".heic" ∷ ".heif" ∷ [];
  max_size = megabytes 10;
  default_name = "image.jpg";
}

-- The answer: a status of refusal, or the identifier of the task.
pub data Answer : Type 0 where
  refused : ℕ → Answer
  accepted : String → Answer

-- The file of a request, with the identifiers that are drawn for the task and the entry.
pub record Posted (Bytes : Type 0) : Type 0 where
  pub owner_id : String
  pub task_id : String
  pub entry_id : String
  pub filename : Option String
  pub content : Bytes

module _ (l : Library) (now : ℕ) where
  open l use {tracker, Bytes, size, suffix, lower}

  -- `_validate_extension`, where the file is let through.
  unfoldable pub has_extension : List String → String → Bool
  has_extension allowed filename = contains allowed (lower (suffix filename))

  abbrev pub upload_of : Format → Posted Bytes → Upload Bytes
  upload_of format p = record {
    owner_id = p.owner_id;
    task_id = p.task_id;
    entry_id = p.entry_id;
    content = p.content;
    filename = if truthy p.filename then or_default "" p.filename else format.default_name;
  }

  unfoldable pub create : String → String → State l → State l
  create task_id owner_id w = record w { tasks = create_task tracker now task_id owner_id w.tasks }

  -- A route, with its job.
  unfoldable pub take :
      Format → (Upload Bytes → State l → State l) → Posted Bytes → State l → Answer × State l
  take format job p w =
      if not (has_extension format.extensions (or_default "" p.filename))
      then (refused 400, w)
      else if ltb format.max_size (size p.content)
      then (refused 400, w)
      else (accepted p.task_id, job (upload_of format p) (create p.task_id p.owner_id w))

  unfoldable pub ingest_audio : Posted Bytes → State l → Answer × State l
  ingest_audio = take audio_format (ingest_audio_background l now)

  unfoldable pub ingest_video : Posted Bytes → State l → Answer × State l
  ingest_video = take video_format (ingest_video_background l now)

  unfoldable pub ingest_document : Posted Bytes → State l → Answer × State l
  ingest_document = take document_format (ingest_document_background l now)

  unfoldable pub ingest_image : Posted Bytes → State l → Answer × State l
  ingest_image = take image_format (ingest_image_background l now)

  -- `get_task_status`: 404 where there is no task.
  unfoldable pub get_task_status : String → State l → Option Task
  get_task_status task_id w = get_task tracker task_id w.tasks
