-- ===== src/Ingest/Unfinished.antt =====
-- What the steps of the jobs in apps/ai/app/services/knowledge.py keep: the task is there, and has no
-- result and no error yet.
use replica_ai.Common.{ℕ, ◌≤◌, ◌≡◌, refl, String, true, none, some, is_some, length, inl, inr}
use replica_ai.Common.Raise.{Result, ok, err, Result-cases}
use replica_ai.Ingest.Tasks.{Task, completed, failed, Update, Ingested, updated, get_task}
use replica_ai.Ingest.Tracked.{get_task-update_task}
use replica_ai.Ingest.Jobs.{Reaches, Outcome}
use replica_ai.Ingest.World.{Library, Point}
use replica_ai.Ingest.Knowledge.{
  State, Step, answer, update, write_update, started, at_progress, finished, broken,
  store_embedding, save_file,
}

-- A task that has no result and no error yet.
pub record IsOpen (task : Task) : Type 0 where
  pub unfinished : task.progress ≤ 90
  pub without_result : task.result ≡ none
  pub without_error : task.error ≡ none

-- A task with its result.
pub record IsCompleted (task : Task) : Type 0 where
  pub status : task.status ≡ completed
  pub progress : task.progress ≡ 100
  pub with_result : is_some task.result ≡ true
  pub without_error : task.error ≡ none

-- A task with an error and without a result.
pub record IsFailed (task : Task) : Type 0 where
  pub status : task.status ≡ failed
  pub unfinished : task.progress ≤ 90
  pub without_result : task.result ≡ none
  pub with_error : is_some task.error ≡ true

module _ (l : Library) (now : ℕ) (task_id : String) where
  open l use {Bytes}

  -- The task is found in the state, and has the property.
  abbrev pub Has : (Task → Type 0) → State l → Type 0
  Has Is w = (task : Task) × (get_task l.tracker task_id w.tasks ≡ some task) × Is task

  pub Has-updated :
      (Is Is' : Task → Type 0) (u : Update)
      → ((task : Task) → Is task → Is' (updated now u task))
      → (w : State l) → Has Is w
      → Has Is' (update l now task_id u w)
  unfolding update
  Has-updated Is Is' u keeps w (task, found, holds) = (
    updated now u task,
    get_task-update_task l.tracker now task_id u task w.tasks found,
    keeps task holds,
  )

  abbrev Keeps : {A : Type 0} → Step l A → Type 0
  Keeps m = Reaches (Has IsOpen) (Has IsOpen) m

  IsOpen-at :
      (n : ℕ) → n ≤ 90 → (task : Task) → IsOpen task → IsOpen (updated now (at_progress l n) task)
  unfolding updated
  IsOpen-at n h task o = record {
    unfinished = h;
    without_result = o.without_result;
    without_error = o.without_error;
  }

  IsOpen-started :
      (n : ℕ) → n ≤ 90 → (task : Task) → IsOpen task → IsOpen (updated now (started l n) task)
  unfolding updated
  IsOpen-started n h task o = record {
    unfinished = h;
    without_result = o.without_result;
    without_error = o.without_error;
  }

  complete :
      (r : Ingested) (task : Task) → IsOpen task → IsCompleted (updated now (finished l r) task)
  unfolding updated
  complete r task o = record {
    status = refl;
    progress = refl;
    with_result = refl;
    without_error = o.without_error;
  }

  pub failure :
      (message : String) (task : Task)
      → IsOpen task
      → IsFailed (updated now (broken l message) task)
  unfolding updated
  failure message task o = record {
    status = refl;
    unfinished = o.unfinished;
    without_result = o.without_result;
    with_error = refl;
  }

  pub Keeps-progress : (n : ℕ) → n ≤ 90 → Keeps (write_update l now task_id (at_progress l n))
  unfolding write_update
  Keeps-progress n h w o = Has-updated IsOpen IsOpen (at_progress l n) (IsOpen-at n h) w o

  pub Keeps-start : (n : ℕ) → n ≤ 90 → Keeps (write_update l now task_id (started l n))
  unfolding write_update
  Keeps-start n h w o = Has-updated IsOpen IsOpen (started l n) (IsOpen-started n h) w o

  pub finishes :
      (r : Ingested)
      → Reaches (Has IsOpen) (Has IsCompleted) (write_update l now task_id (finished l r))
  unfolding write_update
  finishes r w o = Has-updated IsOpen IsCompleted (finished l r) (complete r) w o

  pub Keeps-answer : {A : Type 0} (r : Result A) → Keeps (answer l r)
  Keeps-answer (err e) w o = o
  Keeps-answer (ok a) w o = o

  pub Keeps-save :
      (owner_id kind entry_id filename : String)
      → Keeps (save_file l owner_id kind entry_id filename)
  unfolding save_file
  Keeps-save owner_id kind entry_id filename w o =
      elim (Result-cases (l.write_file owner_id kind entry_id filename)) [
        | inl (e, raised) ↦ rw (raised, save_file, Outcome) o
        | inr (path, written) ↦ rw (written, save_file, Outcome) o
      ]

  pub Keeps-embedding : (text : String) (p : Point) → Keeps (store_embedding l text p)
  unfolding store_embedding
  Keeps-embedding text p w o = elim (Result-cases (l.embed text)) [
    | inl (e, raised) ↦ rw (raised, store_embedding, Outcome) o
    | inr (vector, embedded) ↦ elim (Result-cases (l.prepare vector)) [
      | inl (e, raised) ↦ rw (embedded, raised, store_embedding, Outcome) o
      | inr (u, ready) ↦
          let q = record p { id = l.point_id (length w.points) } in
          elim (Result-cases (l.upsert vector q)) [
            | inl (e, raised) ↦ rw (embedded, ready, raised, store_embedding, Outcome) o
            | inr (v, written) ↦ rw (embedded, ready, written, store_embedding, Outcome) o
          ]
    ]
  ]
