-- ===== src/Ingest/Settled.antt =====
-- The jobs of apps/ai/app/services/knowledge.py end: each leaves its task completed or failed.
use replica_ai.Common.{ℕ, suc, Option, ◌≤◌, arith, String, none, List, [], ◌∷◌, ◌⊎◌}
use replica_ai.Common.Raise.{Result}
use replica_ai.Ingest.Jobs.{Reaches, Reaches-then, outcome-settle, settle, ◌>>=◌}
use replica_ai.Ingest.World.{Library, Point}
use replica_ai.Ingest.Knowledge.{
  State, Step, answer, write_update, started, at_progress, store_embedding, save_file,
}
use replica_ai.Ingest.Background.{
  Upload, audio_steps, video_steps, document_steps, image_steps, save_frames, store_chunks,
  chunk_point, fail, ingest_audio_background, ingest_video_background, ingest_document_background,
  ingest_image_background,
}
use replica_ai.Ingest.Unfinished.{
  IsOpen, IsCompleted, IsFailed, Has, Has-updated, Keeps-answer, Keeps-save, Keeps-embedding,
  Keeps-progress, Keeps-start, finishes, failure,
}

module _ (l : Library) (now : ℕ) (q : Upload l.Bytes) where
  abbrev Reached : Step l (Unit {0}) → Type 0
  Reached m = Reaches (Has l now q.task_id IsOpen) (Has l now q.task_id IsCompleted) m

  after :
      {A : Type 0} (m : Step l A) (f : A → Step l (Unit {0}))
      → Reaches (Has l now q.task_id IsOpen) (Has l now q.task_id IsOpen) m
      → ((a : A) → Reached (f a))
      → Reached (m >>= f)
  after m f h k =
      Reaches-then (Has l now q.task_id IsOpen) (Has l now q.task_id IsCompleted) m f h k

  progressing :
      (n : ℕ) (rest : Unit {0} → Step l (Unit {0}))
      → n ≤ 90
      → ((u : Unit {0}) → Reached (rest u))
      → Reached (write_update l now q.task_id (at_progress l n) >>= rest)
  progressing n rest h k = after _ rest (Keeps-progress l now q.task_id n h) k

  starting :
      (n : ℕ) (rest : Unit {0} → Step l (Unit {0}))
      → n ≤ 90
      → ((u : Unit {0}) → Reached (rest u))
      → Reached (write_update l now q.task_id (started l n) >>= rest)
  starting n rest h k = after _ rest (Keeps-start l now q.task_id n h) k

  saving :
      (kind filename : String) (rest : String → Step l (Unit {0}))
      → ((path : String) → Reached (rest path))
      → Reached (save_file l q.owner_id kind q.entry_id filename >>= rest)
  saving kind filename rest k =
      after _ rest (Keeps-save l now q.task_id q.owner_id kind q.entry_id filename) k

  answering :
      {A : Type 0} (r : Result A) (rest : A → Step l (Unit {0}))
      → ((a : A) → Reached (rest a))
      → Reached (answer l r >>= rest)
  answering r rest k = after _ rest (Keeps-answer l now q.task_id r) k

  embedding :
      (text : String) (p : Point) (rest : String → Step l (Unit {0}))
      → ((id : String) → Reached (rest id))
      → Reached (store_embedding l text p >>= rest)
  embedding text p rest k = after _ rest (Keeps-embedding l now q.task_id text p) k

  keeps_frames :
      (names : List String)
      → Reaches
          (Has l now q.task_id IsOpen)
          (Has l now q.task_id IsOpen)
          (save_frames l now q names)
  keeps_frames [] = λ w o. o
  keeps_frames (name ∷ names) =
      Reaches-then (Has l now q.task_id IsOpen) (Has l now q.task_id IsOpen) _ _
        (Keeps-save l now q.task_id q.owner_id "video" q.entry_id name) (λ path. keeps_frames names)

  keeps_chunks :
      (lang preview category : String) (index : ℕ) (first_id : Option String) (chunks : List String)
      → Reaches
          (Has l now q.task_id IsOpen)
          (Has l now q.task_id IsOpen)
          (store_chunks l now q lang preview category index first_id chunks)
  keeps_chunks lang preview category index first_id [] = λ w o. o
  keeps_chunks lang preview category index first_id (chunk ∷ chunks) =
      Reaches-then (Has l now q.task_id IsOpen) (Has l now q.task_id IsOpen) _ _
        (Keeps-embedding l now q.task_id chunk (chunk_point l now q lang preview category index))
        (λ id. keeps_chunks lang preview category (suc index) _ chunks)

  audio_completes : Reached (audio_steps l now q)
  unfolding audio_steps
  audio_completes = starting 10 _ (omega arith) (λ u. saving "audio" q.filename _ (λ path.
      progressing 30 _ (omega arith) (λ v. answering _ _ (λ heard.
        progressing 60 _ (omega arith) (λ x. answering _ _ (λ english.
          progressing 80 _ (omega arith)
            (λ y. embedding _ _ _ (λ id. finishes l now q.task_id _))))))))

  video_completes : Reached (video_steps l now q)
  unfolding video_steps
  video_completes = starting 10 _ (omega arith) (λ u. saving "video" q.filename _ (λ path.
      progressing 20 _ (omega arith) (λ v. answering _ _ (λ extracted.
        progressing 40 _ (omega arith) (λ x. answering _ _ (λ heard.
          progressing 60 _ (omega arith) (λ y. answering _ _ (λ names.
            after _ _ (keeps_frames names) (λ saved. progressing 80 _ (omega arith) (λ z.
              answering _ _
                (λ english. embedding _ _ _ (λ id. finishes l now q.task_id _))))))))))))

  document_completes : Reached (document_steps l now q)
  unfolding document_steps
  document_completes = starting 10 _ (omega arith) (λ u. saving "document" q.filename _ (λ path.
      progressing 30 _ (omega arith) (λ v. answering _ _ (λ text.
        progressing 50 _ (omega arith) (λ x. answering _ _ (λ english.
          progressing 70 _ (omega arith) (λ y.
            after _ _ (keeps_chunks _ _ _ 0 none _)
              (λ first_id. progressing 90 _ (omega arith) (λ z. finishes l now q.task_id _)))))))))

  image_completes : Reached (image_steps l now q)
  unfolding image_steps
  image_completes = starting 20 _ (omega arith) (λ u. saving "image" q.filename _ (λ path.
      progressing 60 _ (omega arith) (λ v. embedding _ _ _ (λ id. finishes l now q.task_id _))))

  -- The task is completed or failed.
  abbrev pub Ends : State l → Type 0
  Ends w = Has l now q.task_id IsCompleted w ⊎ Has l now q.task_id IsFailed w

  ends :
      (m : Step l (Unit {0})) (w : State l)
      → Reached m
      → Has l now q.task_id IsOpen w
      → Ends (settle (m w) (fail l now q.task_id))
  ends m w h o =
      outcome-settle (Has l now q.task_id IsOpen) (Has l now q.task_id IsCompleted)
        (Has l now q.task_id IsFailed) (m w) (fail l now q.task_id) (h w o)
        (λ e w'.
          Has-updated l now q.task_id IsOpen IsFailed _ (failure l now q.task_id (l.describe e)) w')

  pub audio_ends :
      (w : State l) → Has l now q.task_id IsOpen w → Ends (ingest_audio_background l now q w)
  unfolding ingest_audio_background
  audio_ends w o = ends (audio_steps l now q) w audio_completes o

  pub video_ends :
      (w : State l) → Has l now q.task_id IsOpen w → Ends (ingest_video_background l now q w)
  unfolding ingest_video_background
  video_ends w o = ends (video_steps l now q) w video_completes o

  pub document_ends :
      (w : State l) → Has l now q.task_id IsOpen w → Ends (ingest_document_background l now q w)
  unfolding ingest_document_background
  document_ends w o = ends (document_steps l now q) w document_completes o

  pub image_ends :
      (w : State l) → Has l now q.task_id IsOpen w → Ends (ingest_image_background l now q w)
  unfolding ingest_image_background
  image_ends w o = ends (image_steps l now q) w image_completes o
