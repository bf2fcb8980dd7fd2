-- ===== src/Ingest/Knowledge.antt =====
-- The steps that the jobs of apps/ai/app/services/knowledge.py share: language, translation, category,
-- text of a document, files and embeddings.
use Prim.Native.String.{◌++◌ as str_append}
use replica_ai.Common.{
  ℕ, ◌==◌, String, ◌||◌, none, some, List, [], ◌∷◌, ◌++◌, length, truthy, or_default, str_eq,
  is_blank, if◌then◌else◌,
}
use replica_ai.Common.Raise.{Result, ok, err, value_error, runtime_error}
use replica_ai.Common.Text.{take_chars, decimal}
use replica_ai.Ingest.Tasks.{Update, processing, completed, failed, Ingested, update_task}
use replica_ai.Ingest.Jobs.{Job}
use replica_ai.Ingest.World.{Library, World, Point}

abbrev pub information_categories : List String
information_categories =
    "memories_stories" ∷ "photos_videos" ∷ "voice_recordings" ∷ "health_medical" ∷ "financial"
    ∷ "legal_official" ∷ "relationships_family" ∷ "career_work" ∷ "beliefs_values"
    ∷ "traditions_recipes" ∷ "advice_wisdom" ∷ "general" ∷ []

abbrev pub default_category : String
default_category = "general"

abbrev join : List String → String
join [] = ""
join (x ∷ []) = x
join (x ∷ y ∷ rest) = str_append x (str_append ", " (join (y ∷ rest)))

module _ (l : Library) where
  open l use {
    tracker, Bytes, strip, lower, strip_marks, within, suffix, detect, generate, embed, prepare,
    upsert, point_id, write_file, transcribed, audio_status, decoded, pdf_text, docx_text,
  }

  -- The state of a job, and its steps.
  abbrev pub State : Type 0
  State = World tracker.texts.Texts

  abbrev pub Step : Type 0 → Type 0
  Step A = Job State A

  abbrev pub answer : {A : Type 0} → Result A → Step A
  answer r w = (r, w)

  abbrev pub return : {A : Type 0} → A → Step A
  return a w = (ok a, w)

  unfoldable pub update : ℕ → String → Update → State → State
  update now task_id u w = record w { tasks = update_task tracker now task_id u w.tasks }

  unfoldable pub write_update : ℕ → String → Update → Step (Unit {0})
  write_update now task_id u w = (ok tt, update now task_id u w)

  abbrev pub started : ℕ → Update
  started n = record { status = some processing; progress = some n; result = none; error = none }

  abbrev pub at_progress : ℕ → Update
  at_progress n = record { status = none; progress = some n; result = none; error = none }

  abbrev pub finished : Ingested → Update
  finished r = record {
    status = some completed;
    progress = some 100;
    result = some r;
    error = none;
  }

  abbrev pub broken : String → Update
  broken message = record {
    status = some failed;
    progress = none;
    result = none;
    error = some message;
  }

  unfoldable pub detect_language : String → String
  detect_language text = elim (detect text) [ err e ↦ "en" | ok language ↦ language ]

  abbrev translation_prompt : String → String → String
  translation_prompt text language = str_append "Translate the following " (
      str_append language
        (str_append " text to English. Output ONLY the translation, nothing else:\n\n" text))

  unfoldable pub translate_to_english : String → String → Result String
  translate_to_english text language = elim (generate (translation_prompt text language)) [
    | err e ↦ err e
    | ok response ↦ ok (or_default text response)
  ]

  -- The text in English, translated where the language is another.
  unfoldable pub to_english : String → String → Result String
  to_english text language =
      if str_eq language "en" then ok text else translate_to_english text language

  abbrev category_prompt : String → String
  category_prompt text =
      str_append
        "Classify the following personal content into exactly one category from this list: "
        (str_append (join information_categories) (
          str_append ". Output ONLY the category label, nothing else.\n\nContent: "
            (take_chars 1000 text)))

  -- The first category that is a part of the answer.
  abbrev pub category_in : String → List String → String
  category_in raw [] = default_category
  category_in raw (category ∷ rest) =
      let other = category_in raw rest in if within category raw then category else other

  unfoldable pub classify_category : String → String
  classify_category text =
      if is_blank (strip text) then default_category else elim (generate (category_prompt text)) [
        | err e ↦ default_category
        | ok response ↦
            category_in (strip_marks (lower (strip (or_default "" response))))
              information_categories
      ]

  -- `_generate_and_store_embedding`, with the point that it writes.
  unfoldable pub store_embedding : String → Point → Step String
  store_embedding text p w = elim (embed text) [
    | err e ↦ (err e, w)
    | ok vector ↦ elim (prepare vector) [
      | err e ↦ (err e, w)
      | ok u ↦
          let q = record p { id = point_id (length w.points) } in
          elim (upsert vector q) [
            | err e ↦ (err e, w)
            | ok v ↦ (ok q.id, record w { points = w.points ++ q ∷ [] })
          ]
    ]
  ]

  -- `FileStorage.save_file`
  unfoldable pub save_file : String → String → String → String → Step String
  save_file owner_id content_type entry_id filename w =
      elim (write_file owner_id content_type entry_id filename) [
        | err e ↦ (err e, w)
        | ok path ↦ (
          ok path,
          record w {
            files =
                w.files
                ++ record {
                  owner_id = owner_id;
                  content_type = content_type;
                  entry_id = entry_id;
                  filename = filename;
                }
                  ∷ [];
          },
        )
      ]

  -- `info.language or "en"`
  unfoldable pub transcribe_audio : Result (String × String)
  transcribe_audio = elim transcribed [
    | err e ↦ err e
    | ok (text, language) ↦ ok (text, if truthy language then or_default "" language else "en")
  ]

  unfoldable pub extract_audio_from_video : Result (Unit {0})
  extract_audio_from_video = elim audio_status [
    | err e ↦ err e
    | ok status ↦
        if status == 0
        then ok tt
        else err (
            runtime_error (
              str_append "ffmpeg audio extraction failed (code " (str_append (decimal status) ")")))
  ]

  unfoldable pub extract_document_text : Bytes → String → Result String
  extract_document_text content filename =
      let extension = lower (suffix filename) in
      if str_eq extension ".txt" || str_eq extension ".csv"
      then ok (decoded content)
      else if str_eq extension ".pdf"
      then pdf_text content
      else if str_eq extension ".docx"
      then docx_text content
      else err (value_error (str_append "Unsupported document format: " extension))
