-- ===== src/Ingest/Samples.antt =====
-- Libraries that answer in the plainest way, for the examples: a table for Redis, texts for JSON and
-- bytes, and a model that repeats its prompt.
use replica_ai.Common.{refl, String, Option, none, some, [], str_eq}
use replica_ai.Common.Raise.{ok, err, value_error}
use replica_ai.Common.Text.{length_of}
use replica_ai.Redis.Texts.{Timed, value_table}
use replica_ai.Ingest.Tasks.{Task, Tracker}
use replica_ai.Ingest.World.{Library, World, Point}

abbrev pub sample_tracker : Tracker
sample_tracker = record {
  Json = Task;
  texts = value_table Task;
  dumps = λ t. t;
  loads = λ t. t;
  loads-dumps = λ t. refl;
}

abbrev pub sample_library : Library
sample_library = record {
  tracker = sample_tracker;
  Bytes = String;
  Vector = String;
  size = length_of;
  strip = λ s. s;
  lower = λ s. s;
  strip_marks = λ s. s;
  within = str_eq;
  suffix = λ s. ".txt";
  spaced_stem = λ s. s;
  describe = λ e. "raised";
  detect = λ s. ok "en";
  generate = λ prompt. ok (some prompt);
  embed = λ s. ok s;
  prepare = λ v. ok tt;
  upsert = λ v p. ok tt;
  point_id = λ n. "point";
  write_file = λ owner_id kind entry_id filename. ok filename;
  transcribed = ok ("hello", some "en");
  audio_status = ok 0;
  frames = ok [];
  decoded = λ bytes. bytes;
  pdf_text = λ bytes. ok bytes;
  docx_text = λ bytes. err (value_error "not a document");
}

abbrev pub empty_world : World (String → Option (Timed Task))
empty_world = record { tasks = λ k. none; points = []; files = [] }

abbrev pub sample_point : Point
sample_point = record {
  id = "point";
  entry_id = "entry";
  owner_id = "ann";
  content_type = "text";
  language = "en";
  chunk_index = 0;
  content_preview = some "a recipe";
  category = some "traditions_recipes";
}
