-- ===== src/Sync/Watermark.antt =====
-- `last_sync_at` as the watermark of the next incremental sync in
-- apps/api/app/services/sync_engine.py, and what an instance that does not answer makes of it.
use replica_ai.Common.{
  ℕ, ◌≡◌, ◌<◌, refl, String, Bool, true, false, Option, none, some, List, [], ◌∷◌, arith, first,
  select, All, update_first, eq_iff, Option-cases, inl, inr, length, first_passes, is_some,
}
use replica_ai.Common.Raise.{ok}
use replica_ai.Instances.{Instance, owned_instance}
use replica_ai.Sync.Tables.{
  SyncDb, SyncLog, SyncStatus, SyncType, SyncConflict, Entry, Dated, Reply, answer, not_there,
  http_error, raises, Peer,
}
use replica_ai.Sync.Transfer.{
  Link, sync_knowledge_entries, sync_entries, sync_entry, transfer_entry, transfer_outcome,
  push_rows, selects_entry, selects_dated, pushed, remote_entry_ids, left,
}
use replica_ai.Sync.Run.{
  SyncEnv, run_sync, run_passes, finish_sync, load_instances, mark_synced, link_of, new_log,
  counted_log, begin_sync, save_log, total_synced, has_id, synced_at,
}

-- A call that has no answer: status 404, or an `httpx.HTTPError`.
abbrev pub is_unanswered : {A : Type 0} → Reply A → Bool
is_unanswered (answer a) = false
is_unanswered not_there = true
is_unanswered http_error = true
is_unanswered (raises e) = false

-- An instance that is down, or that does not have the endpoints of a sync.
pub record IsUnreachable (p : Peer) : Type 0 where
  pub no_ids : is_unanswered p.entry_ids ≡ true
  pub no_import : (e : Entry) → is_unanswered (p.import_entry e) ≡ true
  pub no_threads : is_unanswered p.conversations ≡ true
  pub no_rules : is_unanswered p.access_rules ≡ true

abbrev pub watermark : String → List Instance → Option ℕ
watermark id rows = elim (first (has_id id) rows) [ none ↦ none | some i ↦ i.last_sync_at ]

ids_unanswered : (r : Reply (List String)) → is_unanswered r ≡ true → remote_entry_ids r ≡ ok []
unfolding remote_entry_ids
ids_unanswered (answer ids) h = cc
ids_unanswered not_there h = refl
ids_unanswered http_error h = refl
ids_unanswered (raises e) h = cc

pub transfer_unanswered :
    (r : Reply (Unit {0})) → is_unanswered r ≡ true → transfer_outcome r ≡ ok left
unfolding transfer_outcome
transfer_unanswered (answer u) h = cc
transfer_unanswered not_there h = refl
transfer_unanswered http_error h = refl
transfer_unanswered (raises e) h = cc

push_unanswered : (n : ℕ) (r : Reply (Unit {0})) → is_unanswered r ≡ true → pushed n r ≡ ok 0
unfolding pushed
push_unanswered n (answer u) h = cc
push_unanswered n not_there h = refl
push_unanswered n http_error h = refl
push_unanswered n (raises e) h = cc

rows_unanswered :
    (l : Link) (r : Reply (Unit {0})) (rows : List Dated)
    → is_unanswered r ≡ true
    → push_rows l r rows ≡ ok 0
unfolding push_rows
rows_unanswered l r rows h = ground (arith, push_unanswered (length rows) r h)

entry_unanswered :
    (l : Link) (e : Entry) → IsUnreachable l.target_peer → sync_entry l [] e ≡ ok left
unfolding sync_entry transfer_entry
entry_unanswered l e u =
    ground (arith, transfer_unanswered (l.target_peer.import_entry e) (u.no_import e))

entries_unanswered :
    (l : Link) (es : List Entry) (db : List SyncConflict)
    → IsUnreachable l.target_peer
    → sync_entries l [] es db ≡ (ok (0, 0), db)
unfolding sync_entries
entries_unanswered l [] db u = refl
entries_unanswered l (e ∷ es) db u =
    rw (entry_unanswered l e u) (rw (entries_unanswered l es db u) refl)

knowledge_unanswered :
    (l : Link) (es : List Entry) (db : List SyncConflict)
    → IsUnreachable l.target_peer
    → sync_knowledge_entries l es db ≡ (ok (0, 0), db)
unfolding sync_knowledge_entries
knowledge_unanswered l es db u =
    rw (ids_unanswered l.target_peer.entry_ids u.no_ids)
      (rw (entries_unanswered l es db u) (ground arith))

none_selected :
    (owner : String) (now : ℕ) (es : List Entry)
    → All (λ e. e.created_at < now) es
    → select (selects_entry owner (some now)) es ≡ []
none_selected owner now [] h = refl
none_selected owner now (e ∷ es) h = ground (arith, none_selected owner now es)

watermark-synced :
    (now : ℕ) (id owner : String) (rows : List Instance) (t : Instance)
    → first (owned_instance id owner) rows ≡ some t
    → watermark id (update_first (has_id id) (synced_at now) rows) ≡ some now
watermark-synced now id owner [] t h = cc
watermark-synced now id owner (i ∷ rows) t h = ground (arith, watermark-synced now id owner rows t)

still_owned :
    (now : ℕ) (source_id id owner : String) (rows : List Instance)
    → is_some
        (first (owned_instance id owner) (update_first (has_id source_id) (synced_at now) rows))
      ≡ is_some (first (owned_instance id owner) rows)
still_owned now source_id id owner [] = refl
still_owned now source_id id owner (i ∷ rows) =
    ground (arith, still_owned now source_id id owner rows)

named : (id owner : String) (t : Instance) → owned_instance id owner t ≡ true → t.id ≡ id
named id owner t h = ground (arith, eq_iff t.id id)

watermark-mark_synced :
    (now : ℕ) (source_id id owner : String) (rows : List Instance) (t : Instance)
    → first (owned_instance id owner) rows ≡ some t
    → watermark id (mark_synced now source_id t.id rows) ≡ some now
unfolding mark_synced
watermark-mark_synced now source_id id owner rows t h =
    let rows1 = update_first (has_id source_id) (synced_at now) rows in
    rw (named id owner t (first_passes (owned_instance id owner) rows t h))
      (elim (Option-cases (first (owned_instance id owner) rows1)) [
        | inl e ↦ ground (arith, still_owned now source_id id owner rows)
        | inr (t', found) ↦ watermark-synced now id owner rows1 t' found
      ])

passes_unanswered :
    (env : SyncEnv) (kind : SyncType) (since : Option ℕ) (owner : String) (s t : Instance)
    (db : SyncDb)
    → IsUnreachable (env.peer t.id)
    → let log = new_log env kind s t in
      let counted = counted_log (length (select (selects_entry owner since) db.entries)) log in
      run_passes env kind since owner s t db
      ≡ finish_sync env counted (ok 0) (save_log counted (begin_sync log db))
unfolding run_passes link_of total_synced begin_sync save_log
passes_unanswered env kind since owner s t db u =
    let l = link_of env s t in
    rw (knowledge_unanswered l (select (selects_entry owner since) db.entries) db.conflicts u) (
      rw
        (rows_unanswered l (env.peer t.id).conversations
          (select (selects_dated owner since) db.threads) u.no_threads)
        (rw
          (rows_unanswered l (env.peer t.id).access_rules
            (select (selects_dated owner since) db.rules) u.no_rules)
          refl))

-- A sync to an instance of the owner that is down, or that does not have the endpoints, is logged
-- as completed with nothing synced, and moves the target's watermark to the time of the sync. So
-- no entry that was made before is selected by the next incremental sync, which starts there,
-- though none of them was sent.
pub unreachable_sync_completes :
    (env : SyncEnv) (kind : SyncType) (since : Option ℕ) (source_id target_id owner : String)
    (db : SyncDb) (s t : Instance)
    → first (owned_instance source_id owner) db.instances ≡ some s
    → first (owned_instance target_id owner) db.instances ≡ some t
    → IsUnreachable (env.peer t.id)
    → All (λ e. e.created_at < env.now) db.entries
    → let (result, after) = run_sync env kind since source_id target_id owner db in
      (log : SyncLog) × (result ≡ ok log)
      × (log.status ≡ SyncStatus.completed)
      × (log.entries_synced ≡ 0)
      × (watermark target_id after.instances ≡ some env.now)
      × (select (selects_entry owner (some env.now)) after.entries ≡ [])
unfolding run_sync load_instances finish_sync new_log counted_log begin_sync save_log
unreachable_sync_completes env kind since source_id target_id owner db s t found_s found_t u old =
    rw found_s (
      rw found_t (
        rw (passes_unanswered env kind since owner s t db u) (
          _,
          refl,
          refl,
          refl,
          watermark-mark_synced env.now s.id target_id owner db.instances t found_t,
          none_selected owner env.now db.entries old,
        )))
