-- ===== src/Ingest/Tracked.antt =====
-- What the tasks of apps/ai/app/core/task_tracker.py keep.
use replica_ai.Common.{ℕ, ◌<◌, ◌≡◌, arith, String, some, Option-cases, inl, inr}
use replica_ai.Ingest.Tasks.{
  Tracker, Task, Update, task_key, new_task, updated, ttl_of_update, create_task, update_task,
  get_task,
}

ttl_positive : (u : Update) → 0 < ttl_of_update u
unfolding ttl_of_update
ttl_positive u = ground arith

module _ (t : Tracker) where
  open t use {texts, loads-dumps, texts.{Texts, get, get-setex}}

  stored_task :
      (task_id : String) (n : ℕ) (task : Task) (s : Texts)
      → 0 < n
      → get_task t task_id (texts.setex s (task_key task_id) n (t.dumps task)) ≡ some task
  unfolding get_task
  stored_task task_id n task s h =
      ground (arith, get-setex s (task_key task_id) n (t.dumps task) h, loads-dumps task)

  -- A new task is found, pending and without progress.
  pub get_task-create_task :
      (now : ℕ) (task_id owner_id : String) (s : Texts)
      → get_task t task_id (create_task t now task_id owner_id s)
        ≡ some (new_task now task_id owner_id)
  unfolding create_task
  get_task-create_task now task_id owner_id s = stored_task task_id _ _ s (omega arith)

  -- A task that is there has what an update gives, and keeps the rest.
  pub get_task-update_task :
      (now : ℕ) (task_id : String) (u : Update) (task : Task) (s : Texts)
      → get_task t task_id s ≡ some task
      → get_task t task_id (update_task t now task_id u s) ≡ some (updated now u task)
  unfolding update_task get_task
  get_task-update_task now task_id u task s h = elim (Option-cases (get s (task_key task_id))) [
    | inl missing ↦ ground (arith, missing)
    | inr (raw, found) ↦
        let stored =
          stored_task task_id (ttl_of_update u) (updated now u (t.loads raw)) s (ttl_positive u) in
        ground (arith, found, stored)
  ]
