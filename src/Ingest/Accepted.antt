-- ===== src/Ingest/Accepted.antt =====
-- What becomes of a file that is posted to the routes of apps/ai/app/routers/knowledge.py.
use replica_ai.Common.{
  ℕ, ◌≡◌, refl, arith, String, some, ◌⊎◌, inl, inr, if-both, not, ltb, or_default,
}
use replica_ai.Ingest.Tasks.{Task, new_task}
use replica_ai.Ingest.Tracked.{get_task-create_task}
use replica_ai.Ingest.World.{Library}
use replica_ai.Ingest.Knowledge.{State}
use replica_ai.Ingest.Background.{
  Upload, ingest_audio_background, ingest_video_background, ingest_document_background,
  ingest_image_background,
}
use replica_ai.Ingest.Unfinished.{IsOpen, IsCompleted, IsFailed, Has}
use replica_ai.Ingest.Settled.{Ends, audio_ends, video_ends, document_ends, image_ends}
use replica_ai.Ingest.Uploads.{
  Format, Posted, Answer, refused, accepted, has_extension, audio_format, video_format,
  document_format, image_format, upload_of, create, take, get_task_status, ingest_audio,
  ingest_video, ingest_document, ingest_image,
}

module _ (l : Library) (now : ℕ) where
  -- The task that one asks for is completed or failed.
  abbrev pub IsOver : String → State l → Type 0
  IsOver task_id w =
      (task : Task) × (get_task_status l now task_id w ≡ some task)
      × (IsCompleted task ⊎ IsFailed task)

  -- A refusal that changes nothing, or a task that is over.
  abbrev pub Handled : Posted l.Bytes → State l → Answer × State l → Type 0
  Handled p w (answer, w') =
      ((answer ≡ refused 400) × (w' ≡ w)) ⊎ ((answer ≡ accepted p.task_id) × IsOver p.task_id w')

  over : (q : Upload l.Bytes) (w : State l) → Ends l now q w → IsOver q.task_id w
  unfolding get_task_status
  over q w (inl (task, found, done)) = (task, found, inl done)
  over q w (inr (task, found, broken)) = (task, found, inr broken)

  created-IsOpen :
      (task_id owner_id : String) (w : State l)
      → Has l now task_id IsOpen (create l now task_id owner_id w)
  unfolding create new_task
  created-IsOpen task_id owner_id w = (
    new_task now task_id owner_id,
    get_task-create_task l.tracker now task_id owner_id w.tasks,
    record { unfinished = omega arith; without_result = refl; without_error = refl },
  )

  handled :
      (format : Format) (job : Upload l.Bytes → State l → State l) (p : Posted l.Bytes)
      (w : State l)
      → ((q : Upload l.Bytes) (w : State l) → Has l now q.task_id IsOpen w → Ends l now q (job q w))
      → Handled p w (take l now format job p w)
  unfolding take
  handled format job p w h =
      if-both (Handled p w) (not (has_extension l now format.extensions (or_default "" p.filename)))
        _ _ (inl (refl, refl))
        (if-both (Handled p w) (ltb format.max_size (l.size p.content)) _ _ (inl (refl, refl)) (
          inr (
            refl,
            over (upload_of l now format p) _
                (h (upload_of l now format p) _ (created-IsOpen p.task_id p.owner_id w)),
          )))

  -- Each of the four routes that take a file either refuses it with 400 and changes nothing, or
  -- answers with the new task; and when the job has run, the task is found and is over: it is
  -- completed, at 100 percent, with a result and no error, or it has failed, below 100 percent, with
  -- an error and no result, whatever the services that the job calls answer or raise.
  pub upload_settles :
      (p : Posted l.Bytes) (w : State l)
      → Handled p w (ingest_audio l now p w)
        × Handled p w (ingest_video l now p w)
        × Handled p w (ingest_document l now p w)
        × Handled p w (ingest_image l now p w)
  unfolding ingest_audio ingest_video ingest_document ingest_image
  upload_settles p w = (
    handled audio_format (ingest_audio_background l now) p w (audio_ends l now),
    handled video_format (ingest_video_background l now) p w (video_ends l now),
    handled document_format (ingest_document_background l now) p w (document_ends l now),
    handled image_format (ingest_image_background l now) p w (image_ends l now),
  )
