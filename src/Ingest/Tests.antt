-- ===== src/Ingest/Tests.antt =====
-- The theorems on the ingestion of apps/ai at concrete texts and files.
use replica_ai.Common.{ℕ, zero, suc, ◌≡◌, refl, arith, String, some, str_eq, if◌then◌else◌}
use replica_ai.Ingest.Chunks.{chunk_text, chunks_from, glue, glue-chunk_text, chunks_from_enough}
use replica_ai.Ingest.Samples.{sample_library, empty_world}
use replica_ai.Ingest.Uploads.{Posted, ingest_audio, ingest_video, ingest_document, ingest_image}
use replica_ai.Ingest.Accepted.{Handled, upload_settles}
use replica_ai.Ingest.Serving.{
  Disk, Within, content, refused, starts_with, serve_storage_file, sibling_served,
}

-- A text of `n` characters.
abbrev letters : ℕ → String
letters zero = ""
letters (suc n) = String.◌∷◌ "a" (letters n)

glue-chunk_text_example : glue (chunk_text (letters 2300)) ≡ letters 2300
glue-chunk_text_example = glue-chunk_text (letters 2300)

chunks_from_enough_example : chunks_from 9 (letters 5) 0 ≡ chunks_from 5 (letters 5) 0
chunks_from_enough_example = chunks_from_enough 9 5 (letters 5) 0 (omega arith) (omega arith)

abbrev notes : Posted String
notes = record {
  owner_id = "ann";
  task_id = "task";
  entry_id = "entry";
  filename = some "notes.txt";
  content = "a long letter";
}

upload_settles_example :
    Handled sample_library 5 notes empty_world (ingest_audio sample_library 5 notes empty_world)
    × Handled sample_library 5 notes empty_world (ingest_video sample_library 5 notes empty_world)
    × Handled sample_library 5 notes empty_world
        (ingest_document sample_library 5 notes empty_world)
    × Handled sample_library 5 notes empty_world (ingest_image sample_library 5 notes empty_world)
upload_settles_example = upload_settles sample_library 5 notes empty_world

-- A disk with a directory beside the storage, and nothing else but the passwords.
abbrev disk : Disk
disk = record {
  Bytes = String;
  resolve =
      λ path. if str_eq path "../storage-old/key" then "/data/storage-old/key" else "/etc/passwd";
  read = λ path. some "secret";
}

sibling_served_example :
    (¬ Within "/data/storage" "/data/storage-old/key")
    × (serve_storage_file disk "/data/storage" "../storage-old/key" ≡ content "secret")
    × (serve_storage_file disk "/data/storage" "/etc/passwd" ≡ refused 400)
unfolding starts_with
sibling_served_example =
    sibling_served disk "/data/storage" "../storage-old/key" "/etc/passwd" "old/key" "-" "secret"
      refl (λ e. cc) refl refl
