-- ===== src/Ingest/Background.antt =====
-- The background jobs of `KnowledgeIngestor` in apps/ai/app/services/knowledge.py, and `ingest_text`.
-- The clock stands still in a job. A job that raises writes the exception into its task.
use Prim.Native.String.{◌++◌ as str_append}
use replica_ai.Common.{
  ℕ, suc, ◌==◌, String, not, ◌&&◌, Option, none, some, List, [], ◌∷◌, length, truthy, or_default,
  str_eq, if◌then◌else◌,
}
use replica_ai.Common.Raise.{Exception, Result, ok}
use replica_ai.Common.Text.{take_chars, length_of}
use replica_ai.Ingest.Tasks.{Ingested, of_text, of_audio, of_video, of_document, of_image}
use replica_ai.Ingest.Jobs.{◌>>=◌, ◌>>◌, settle}
use replica_ai.Ingest.World.{Library, Point}
use replica_ai.Ingest.Chunks.{chunk_text}
use replica_ai.Ingest.Knowledge.{
  State, Step, answer, return, update, write_update, started, at_progress, finished, broken,
  detect_language, to_english, classify_category, store_embedding, save_file, transcribe_audio,
  extract_audio_from_video, extract_document_text,
}

-- `english if lang != "en" else None`
abbrev pub translation_of : String → String → Option String
translation_of language english = if str_eq language "en" then none else some english

-- A point before it has its identifier.
abbrev pub point_of : String → String → String → String → ℕ → Option String → String → Point
point_of entry_id owner_id content_type language index preview category = record {
  id = "";
  entry_id = entry_id;
  owner_id = owner_id;
  content_type = content_type;
  language = language;
  chunk_index = index;
  content_preview = preview;
  category = some category;
}

-- The argument of a job: the owner, the task, the entry that it draws, and the file.
pub record Upload (Bytes : Type 0) : Type 0 where
  pub owner_id : String
  pub task_id : String
  pub entry_id : String
  pub content : Bytes
  pub filename : String

module _ (l : Library) (now : ℕ) where
  open l use {Bytes, frames, spaced_stem, describe}

  abbrev to : String → ℕ → Step l (Unit {0})
  to task_id n = write_update l now task_id (at_progress l n)

  abbrev pub fail : String → Exception → State l → State l
  fail task_id e = update l now task_id (broken l (describe e))

  abbrev english_preview : String → String
  english_preview english = take_chars 300 english

  -- The language of a text and the text in English, as `ingest_text` takes them.
  abbrev text_language : String → Option String → String
  text_language text language =
      if truthy language then or_default "" language else detect_language l text

  abbrev text_english : String → String → Option String → Result String
  text_english text language translation =
      if truthy translation && not (str_eq language "en")
      then ok (or_default "" translation)
      else to_english l text language

  unfoldable pub ingest_text :
      String → String → String → Option String → Option String → Step l Ingested
  ingest_text owner_id entry_id text language translation = do
    let lang = text_language text language
    english ← answer l (text_english text lang translation)
    let preview = english_preview english
    let category = classify_category l english
    embedding_id ←
        store_embedding l english (point_of entry_id owner_id "text" lang 0 (some preview) category)
    return l (record {
      entry_id = entry_id;
      language = lang;
      english_translation = translation_of lang english;
      embedding_id = some embedding_id;
      content_preview = preview;
      category = category;
      original_content_path = none;
      metadata = of_text (take_chars 500 text);
    })

  unfoldable pub audio_steps : Upload Bytes → Step l (Unit {0})
  audio_steps q = do
    write_update l now q.task_id (started l 10)
    path ← save_file l q.owner_id "audio" q.entry_id q.filename
    to q.task_id 30
    heard ← answer l (transcribe_audio l)
    let text = heard.0
    let lang = heard.1
    to q.task_id 60
    english ← answer l (to_english l text lang)
    let preview = english_preview english
    let category = classify_category l english
    to q.task_id 80
    embedding_id ←
        store_embedding l english
          (point_of q.entry_id q.owner_id "audio" lang 0 (some preview) category)
    write_update l now q.task_id (
        finished l (record {
          entry_id = q.entry_id;
          language = lang;
          english_translation = translation_of lang english;
          embedding_id = some embedding_id;
          content_preview = preview;
          category = category;
          original_content_path = some path;
          metadata = of_audio q.filename (take_chars 500 text);
        }))

  -- The frames are saved in the order of their names.
  abbrev pub save_frames : Upload Bytes → List String → Step l (Unit {0})
  save_frames q [] = return l tt
  save_frames q (name ∷ names) =
      save_file l q.owner_id "video" q.entry_id name >> save_frames q names

  unfoldable pub video_steps : Upload Bytes → Step l (Unit {0})
  video_steps q = do
    write_update l now q.task_id (started l 10)
    path ← save_file l q.owner_id "video" q.entry_id q.filename
    to q.task_id 20
    answer l (extract_audio_from_video l)
    to q.task_id 40
    heard ← answer l (transcribe_audio l)
    let text = heard.0
    let lang = heard.1
    to q.task_id 60
    names ← answer l frames
    save_frames q names
    to q.task_id 80
    english ← answer l (to_english l text lang)
    let preview = english_preview english
    let category = classify_category l english
    embedding_id ←
        store_embedding l english
          (point_of q.entry_id q.owner_id "video" lang 0 (some preview) category)
    write_update l now q.task_id (
        finished l (record {
          entry_id = q.entry_id;
          language = lang;
          english_translation = translation_of lang english;
          embedding_id = some embedding_id;
          content_preview = preview;
          category = category;
          original_content_path = some path;
          metadata = of_video q.filename (take_chars 500 text) (length names);
        }))

  -- The chunks of a document from number `index` on; only the first has the preview.
  abbrev pub chunk_point : Upload Bytes → String → String → String → ℕ → Point
  chunk_point q lang preview category index =
      point_of q.entry_id q.owner_id "document" lang index
        (if index == 0 then some preview else none) category

  abbrev pub store_chunks :
      Upload Bytes
      → String
      → String
      → String
      → ℕ
      → Option String
      → List String
      → Step l (Option String)
  store_chunks q lang preview category index first_id [] = return l first_id
  store_chunks q lang preview category index first_id (chunk ∷ chunks) = do
    id ← store_embedding l chunk (chunk_point q lang preview category index)
    store_chunks q lang preview category (suc index) (if index == 0 then some id else first_id)
        chunks

  unfoldable pub document_steps : Upload Bytes → Step l (Unit {0})
  document_steps q = do
    write_update l now q.task_id (started l 10)
    path ← save_file l q.owner_id "document" q.entry_id q.filename
    to q.task_id 30
    text ← answer l (extract_document_text l q.content q.filename)
    let lang = detect_language l text
    to q.task_id 50
    english ← answer l (to_english l text lang)
    to q.task_id 70
    let chunks = chunk_text english
    let preview = english_preview english
    let category = classify_category l english
    first_id ← store_chunks q lang preview category 0 none chunks
    to q.task_id 90
    write_update l now q.task_id (
        finished l (record {
          entry_id = q.entry_id;
          language = lang;
          english_translation = translation_of lang (take_chars 5000 english);
          embedding_id = first_id;
          content_preview = preview;
          category = category;
          original_content_path = some path;
          metadata = of_document q.filename (length chunks) (length_of text);
        }))

  unfoldable pub image_steps : Upload Bytes → Step l (Unit {0})
  image_steps q = do
    write_update l now q.task_id (started l 20)
    path ← save_file l q.owner_id "image" q.entry_id q.filename
    to q.task_id 60
    let text = str_append "photo image: " (spaced_stem q.filename)
    embedding_id ←
        store_embedding l text
          (point_of q.entry_id q.owner_id "image" "en" 0 (some text) "photos_videos")
    write_update l now q.task_id (
        finished l (record {
          entry_id = q.entry_id;
          language = "en";
          english_translation = none;
          embedding_id = some embedding_id;
          content_preview = text;
          category = "photos_videos";
          original_content_path = some path;
          metadata = of_image q.filename;
        }))

  unfoldable pub ingest_audio_background : Upload Bytes → State l → State l
  ingest_audio_background q w = settle (audio_steps q w) (fail q.task_id)

  unfoldable pub ingest_video_background : Upload Bytes → State l → State l
  ingest_video_background q w = settle (video_steps q w) (fail q.task_id)

  unfoldable pub ingest_document_background : Upload Bytes → State l → State l
  ingest_document_background q w = settle (document_steps q w) (fail q.task_id)

  unfoldable pub ingest_image_background : Upload Bytes → State l → State l
  ingest_image_background q w = settle (image_steps q w) (fail q.task_id)
