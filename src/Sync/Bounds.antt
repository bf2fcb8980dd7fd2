-- ===== src/Sync/Bounds.antt =====
-- What a sync of apps/api/app/services/sync_engine.py counts.
use replica_ai.Common.{
  ℕ, ◌+◌, ◌≡◌, ◌≤◌, inl, inr, refl, String, Option, List, [], ◌∷◌, length, arith, select, truthy,
  Bool-cases,
}
use replica_ai.Common.Raise.{Result, ok, err}
use replica_ai.Instances.{Instance}
use replica_ai.Sync.Tables.{
  SyncDb, SyncLog, SyncType, SyncConflict, Entry, Dated, Reply, answer, not_there, http_error,
  raises,
}
use replica_ai.Sync.Transfer.{
  Link, sync_knowledge_entries, push_rows, selects_entry, selects_dated, pushed, with_ids,
}
use replica_ai.Sync.Run.{
  SyncEnv, run_sync, run_passes, finish_sync, load_instances, link_of, new_log, total_synced,
  counted_log, begin_sync, save_log, completed_log,
}
use replica_ai.Sync.Counts.{length-Counted, sync_entries-Counted}

pushed_bounded : (n m : ℕ) (reply : Reply (Unit {0})) → pushed n reply ≡ ok m → m ≤ n
unfolding pushed
pushed_bounded n m (answer u) h = ground arith
pushed_bounded n m not_there h = ground arith
pushed_bounded n m http_error h = ground arith
pushed_bounded n m (raises e) h = cc

push_rows_bounded :
    (l : Link) (reply : Reply (Unit {0})) (rows : List Dated) (m : ℕ)
    → push_rows l reply rows ≡ ok m
    → m ≤ length rows
unfolding push_rows
push_rows_bounded l reply rows m h = ground (arith, pushed_bounded (length rows) m reply)

abbrev IsBounded :
    List Entry → List SyncConflict → Result (ℕ × ℕ) × List SyncConflict → ℕ × ℕ → Type 0
IsBounded es db out n = (n.0 + n.1 ≤ length es) × (length out.1 ≡ length db + n.1)

nothing-IsBounded :
    (es : List Entry) (db : List SyncConflict) (n : ℕ × ℕ)
    → ok (0, 0) ≡ ok n
    → IsBounded es db (ok (0, 0), db) n
nothing-IsBounded es db n h = ground arith

with_ids-IsBounded :
    (l : Link) (ids : Result (List String)) (es : List Entry) (db : List SyncConflict) (n : ℕ × ℕ)
    → (with_ids l ids es db).0 ≡ ok n
    → IsBounded es db (with_ids l ids es db) n
with_ids-IsBounded l (err x) es db n h = cc
with_ids-IsBounded l (ok ids) es db n h =
    let c = sync_entries-Counted l ids es db n h in (c.bounded, length-Counted l ids es db _ n c)

knowledge-IsBounded :
    (l : Link) (es : List Entry) (db : List SyncConflict) (n : ℕ × ℕ)
    → (sync_knowledge_entries l es db).0 ≡ ok n
    → IsBounded es db (sync_knowledge_entries l es db) n
unfolding sync_knowledge_entries
knowledge-IsBounded l [] db n h = nothing-IsBounded [] db n h
knowledge-IsBounded l (e ∷ es) db n h = elim (Bool-cases (truthy l.target.api_url)) [
  | inl url ↦ rw url (with_ids-IsBounded l _ (e ∷ es) db n (rw url at h))
  | inr no_url ↦ rw no_url (nothing-IsBounded (e ∷ es) db n (rw no_url at h))
]

-- The three counts of a total.
summands :
    (k : Result (ℕ × ℕ)) (t r : Result ℕ) (total : ℕ)
    → total_synced k t r ≡ ok total
    → (n : ℕ × ℕ) × (a : ℕ) × (b : ℕ) × (k ≡ ok n) × (t ≡ ok a) × (r ≡ ok b) × (total ≡ n.0 + a + b)
unfolding total_synced
summands (ok n) (ok a) (ok b) total h = (n, a, b, refl, refl, refl, ground arith)
summands (ok n) (ok a) (err x) total h = cc
summands (ok n) (err x) r total h = cc
summands (err x) t r total h = cc

finished :
    (env : SyncEnv) (start : SyncLog) (total : Result ℕ) (db : SyncDb) (log : SyncLog)
    → (finish_sync env start total db).0 ≡ ok log
    → (total ≡ ok log.entries_synced)
      × (log.total_entries ≡ start.total_entries)
      × ((finish_sync env start total db).1.conflicts ≡ db.conflicts)
unfolding finish_sync save_log completed_log
finished env start (ok n) db log h = ground arith
finished env start (err x) db log h = cc

passes_bounded :
    (env : SyncEnv) (kind : SyncType) (since : Option ℕ) (owner : String) (s t : Instance)
    (db : SyncDb) (log : SyncLog)
    → (run_passes env kind since owner s t db).0 ≡ ok log
    → (log.total_entries ≡ length (select (selects_entry owner since) db.entries))
      × (log.entries_synced
          ≤ log.total_entries
            + length (select (selects_dated owner since) db.threads)
            + length (select (selects_dated owner since) db.rules))
      × (length (run_passes env kind since owner s t db).1.conflicts
          ≤ length db.conflicts + log.total_entries)
unfolding run_passes new_log counted_log begin_sync save_log
passes_bounded env kind since owner s t db log h =
    let l = link_of env s t in
    let es = select (selects_entry owner since) db.entries in
    let knowledge = sync_knowledge_entries l es db.conflicts in
    let (total, whole, kept) = finished env _ _ _ log h in
    let (n, a, b, counted, threads, rules, sum) =
      summands knowledge.0 _ _ log.entries_synced total in
    let (few, logged) = knowledge-IsBounded l es db.conflicts n counted in
    let few_threads =
      push_rows_bounded l _ (select (selects_dated owner since) db.threads) a threads in
    let few_rules = push_rows_bounded l _ (select (selects_dated owner since) db.rules) b rules in
    (
      omega (arith, whole),
      omega (arith, whole, sum, few, few_threads, few_rules),
      rw kept (omega (arith, whole, few, logged)),
    )

-- A sync that returns reports as its total the knowledge entries that it selected, and counts as
-- synced at most these with the threads and the rules that it selected. It adds at most one
-- conflict for each selected entry.
pub synced_bounded :
    (env : SyncEnv) (kind : SyncType) (since : Option ℕ) (source_id target_id owner : String)
    (db : SyncDb) (s t : Instance) (log : SyncLog)
    → load_instances source_id target_id owner db.instances ≡ ok (s, t)
    → (run_sync env kind since source_id target_id owner db).0 ≡ ok log
    → (log.total_entries ≡ length (select (selects_entry owner since) db.entries))
      × (log.entries_synced
          ≤ log.total_entries
            + length (select (selects_dated owner since) db.threads)
            + length (select (selects_dated owner since) db.rules))
      × (length (run_sync env kind since source_id target_id owner db).1.conflicts
          ≤ length db.conflicts + log.total_entries)
unfolding run_sync
synced_bounded env kind since source_id target_id owner db s t log loaded h =
    rw loaded (passes_bounded env kind since owner s t db log (rw loaded at h))
