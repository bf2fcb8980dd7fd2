-- ===== src/Sync/Transfer.antt =====
-- The three passes of a sync in apps/api/app/services/sync_engine.py: knowledge entries,
-- conversations and access rules.
use replica_ai.Common.{
  ℕ, ◌+◌, String, Bool, true, false, not, ◌&&◌, Option, none, some, List, [], ◌∷◌, ◌++◌, length,
  contains, str_eq, truthy, leb, if◌then◌else◌,
}
use replica_ai.Common.Raise.{Result, ok, err}
use replica_ai.Instances.{Instance}
use replica_ai.Sync.Tables.{
  SyncConflict, ConflictResolution, Entry, Dated, Reply, answer, not_there, http_error, raises,
  Peer,
}

-- What one sync sees: its two instances, their answers, the identifier of its log, and the
-- identifier drawn for a conflict about an entry.
pub record Link : Type 0 where
  pub source : Instance
  pub target : Instance
  pub source_peer : Peer
  pub target_peer : Peer
  pub log_id : String
  pub conflict_id : String → String

-- `created_at >= since`, where there is a bound.
abbrev pub is_since : Option ℕ → ℕ → Bool
is_since none t = true
is_since (some since) t = leb since t

abbrev pub selects_entry : String → Option ℕ → Entry → Bool
selects_entry owner_id since e = str_eq e.owner_id owner_id && is_since since e.created_at

abbrev pub selects_dated : String → Option ℕ → Dated → Bool
selects_dated owner_id since d = str_eq d.owner_id owner_id && is_since since d.created_at

-- `_get_remote_entry_ids` on the target, whose `api_url` is there.
unfoldable pub remote_entry_ids : Reply (List String) → Result (List String)
remote_entry_ids (answer ids) = ok ids
remote_entry_ids not_there = ok []
remote_entry_ids http_error = ok []
remote_entry_ids (raises e) = err e

-- The hashes of the two sides: the target's where they differ. The test for status 404 comes before
-- `raise_for_status`, and both requests before the test.
unfoldable pub compare_hashes : Reply String → Reply String → Result (Option String)
compare_hashes http_error t = ok none
compare_hashes (raises e) http_error = ok none
compare_hashes (answer s) http_error = ok none
compare_hashes not_there http_error = ok none
compare_hashes (raises e) not_there = ok none
compare_hashes not_there (raises e) = ok none
compare_hashes not_there (answer t) = ok none
compare_hashes not_there not_there = ok none
compare_hashes (answer s) not_there = ok none
compare_hashes (raises e) (answer t) = err e
compare_hashes (raises e) (raises f) = err e
compare_hashes (answer s) (raises f) = err f
compare_hashes (answer s) (answer t) = if str_eq s t then ok none else ok (some t)

unfoldable pub new_conflict : Link → Entry → String → SyncConflict
new_conflict l e hash = record {
  id = l.conflict_id e.id;
  sync_log_id = l.log_id;
  entry_id = e.id;
  source_instance = l.source.id;
  target_instance = some l.target.id;
  target_hash = hash;
  resolution = ConflictResolution.unresolved;
  resolved_at = none;
}

-- What became of one entry: sent, in conflict with the target's hash, or neither.
pub data Outcome : Type 0 where
  sent : Outcome
  differs : String → Outcome
  left : Outcome

abbrev pub outcome_of_hashes : Result (Option String) → Result Outcome
outcome_of_hashes (ok none) = ok left
outcome_of_hashes (ok (some hash)) = ok (differs hash)
outcome_of_hashes (err e) = err e

-- `_check_entry_conflict`, under the caller's test of the source's `api_url`.
unfoldable pub check_entry_conflict : Link → Entry → Result Outcome
unfolding compare_hashes
check_entry_conflict l e =
    if truthy l.source.api_url && truthy l.target.api_url
    then outcome_of_hashes
        (compare_hashes (l.source_peer.entry_hash e.id) (l.target_peer.entry_hash e.id))
    else ok left

-- `_transfer_entry_to_instance`
unfoldable pub transfer_outcome : Reply (Unit {0}) → Result Outcome
transfer_outcome (answer u) = ok sent
transfer_outcome not_there = ok left
transfer_outcome http_error = ok left
transfer_outcome (raises e) = err e

unfoldable pub transfer_entry : Link → Entry → Result Outcome
unfolding transfer_outcome
transfer_entry l e =
    if truthy l.target.api_url then transfer_outcome (l.target_peer.import_entry e) else ok left

-- The body of the loop over the entries.
unfoldable pub sync_entry : Link → List String → Entry → Result Outcome
sync_entry l ids e = if contains ids e.id then check_entry_conflict l e else transfer_entry l e

-- The counts of the loop, and the table of conflicts.
abbrev pub note_outcome : Link → Entry → Result Outcome → List SyncConflict → List SyncConflict
note_outcome l e (ok sent) db = db
note_outcome l e (ok left) db = db
note_outcome l e (ok (differs hash)) db = db ++ new_conflict l e hash ∷ []
note_outcome l e (err x) db = db

-- The first exception ends the loop; the counts are of the entries sent and of the conflicts.
abbrev pub add_outcome : Result Outcome → Result (ℕ × ℕ) → Result (ℕ × ℕ)
add_outcome (err x) rest = err x
add_outcome (ok o) (err x) = err x
add_outcome (ok sent) (ok (synced, conflicts)) = ok (1 + synced, conflicts)
add_outcome (ok (differs hash)) (ok (synced, conflicts)) = ok (synced, 1 + conflicts)
add_outcome (ok left) (ok (synced, conflicts)) = ok (synced, conflicts)

abbrev pub is_raised : {A : Type 0} → Result A → Bool
is_raised (ok a) = false
is_raised (err e) = true

unfoldable pub sync_entries :
    Link → List String → List Entry → List SyncConflict → Result (ℕ × ℕ) × List SyncConflict
sync_entries l ids [] db = (ok (0, 0), db)
sync_entries l ids (e ∷ es) db =
    let o = sync_entry l ids e in
    let db1 = note_outcome l e o db in
    let (rest, db2) = sync_entries l ids es db1 in
    (add_outcome o rest, if is_raised o then db1 else db2)

abbrev pub with_ids :
    Link
    → Result (List String)
    → List Entry
    → List SyncConflict
    → Result (ℕ × ℕ) × List SyncConflict
with_ids l (err x) es db = (err x, db)
with_ids l (ok ids) es db = sync_entries l ids es db

abbrev pub is_empty : {A : Type 0} → List A → Bool
is_empty [] = true
is_empty (x ∷ xs) = false

-- `_sync_knowledge_entries` on the entries that its query found.
unfoldable pub sync_knowledge_entries :
    Link → List Entry → List SyncConflict → Result (ℕ × ℕ) × List SyncConflict
unfolding remote_entry_ids
sync_knowledge_entries l es db =
    if is_empty es
    then (ok (0, 0), db)
    else if not (truthy l.target.api_url)
    then (ok (0, 0), db)
    else with_ids l (remote_entry_ids l.target_peer.entry_ids) es db

-- The answer to a push of `n` rows.
unfoldable pub pushed : ℕ → Reply (Unit {0}) → Result ℕ
pushed n (answer u) = ok n
pushed n not_there = ok 0
pushed n http_error = ok 0
pushed n (raises e) = err e

-- `_sync_conversations` and `_sync_access_rules`: nothing is sent where there is no row.
unfoldable pub push_rows : Link → Reply (Unit {0}) → List Dated → Result ℕ
unfolding pushed
push_rows l reply rows =
    if not (truthy l.target.api_url)
    then ok 0
    else if is_empty rows
    then ok 0
    else pushed (length rows) reply
