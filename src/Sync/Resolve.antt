-- ===== src/Sync/Resolve.antt =====
-- `resolve_conflict` of apps/api/app/services/sync_engine.py.
use replica_ai.Common.{
  ℕ, ◌≡◌, refl, String, Bool, Option, none, some, List, [], ◌∷◌, first, update_first, str_eq,
  truthy, or_default, if◌then◌else◌, arith, select, not,
}
use replica_ai.Common.Raise.{Result, ok, err, value_error}
use replica_ai.Instances.{Instance, owned_instance}
use replica_ai.Sync.Tables.{
  SyncDb, SyncLog, SyncConflict, ConflictResolution, keep_source, keep_target, keep_both,
  unresolved, Entry, Peer,
}
use replica_ai.Sync.Transfer.{transfer_outcome, Outcome, left}
use replica_ai.Sync.Run.{has_id}

abbrev pub has_conflict_id : String → SyncConflict → Bool
has_conflict_id id c = str_eq c.id id

abbrev pub has_log_id : String → SyncLog → Bool
has_log_id id log = str_eq log.id id

abbrev pub has_entry_id : String → Entry → Bool
has_entry_id id e = str_eq e.id id

abbrev pub conflict_not_found {ℓ} : {A : Type ℓ} → Result A
conflict_not_found = err (value_error "Conflict not found")

-- The conflict, with the owner checked through its log and the source instance of that.
unfoldable pub load_conflict : String → String → SyncDb → Result SyncConflict
load_conflict conflict_id owner_id db = elim (first (has_conflict_id conflict_id) db.conflicts) [
  | none ↦ conflict_not_found
  | some c ↦ elim (first (has_log_id c.sync_log_id) db.logs) [
    | none ↦ conflict_not_found
    | some log ↦ elim (first (owned_instance log.source_instance_id owner_id) db.instances) [
      | none ↦ conflict_not_found
      | some source ↦ ok c
    ]
  ]
]

abbrev pub resend : (String → Peer) → Option Instance → Option Entry → Result Outcome
resend peer none e = ok left
resend peer (some target) none = ok left
resend peer (some target) (some e) =
    if truthy target.api_url then transfer_outcome ((peer target.id).import_entry e) else ok left

-- `_apply_conflict_resolution`: what became of the entry that the source keeps.
unfoldable pub apply_resolution :
    (String → Peer) → ConflictResolution → SyncConflict → SyncDb → Result Outcome
apply_resolution peer keep_source c db =
    if truthy c.target_instance
    then resend peer (first (has_id (or_default "" c.target_instance)) db.instances)
        (first (has_entry_id c.entry_id) db.entries)
    else ok left
apply_resolution peer keep_target c db = ok left
apply_resolution peer keep_both c db = ok left
apply_resolution peer unresolved c db = ok left

unfoldable pub resolved : ℕ → ConflictResolution → SyncConflict → SyncConflict
resolved now resolution c = record c { resolution = resolution; resolved_at = some now }

-- The commit, which an exception of the transfer prevents.
abbrev pub commit_resolution :
    ℕ
    → ConflictResolution
    → String
    → SyncConflict
    → Result Outcome
    → SyncDb
    → Result SyncConflict × SyncDb
commit_resolution now resolution conflict_id c (err e) db = (err e, db)
commit_resolution now resolution conflict_id c (ok o) db = (
  ok (resolved now resolution c),
  record db {
    conflicts = update_first (has_conflict_id conflict_id) (resolved now resolution) db.conflicts;
  },
)

abbrev pub resolve_loaded :
    ℕ
    → (String → Peer)
    → ConflictResolution
    → String
    → Result SyncConflict
    → SyncDb
    → Result SyncConflict × SyncDb
resolve_loaded now peer resolution conflict_id (err e) db = (err e, db)
resolve_loaded now peer resolution conflict_id (ok c) db =
    commit_resolution now resolution conflict_id c (apply_resolution peer resolution c db) db

unfoldable pub resolve_conflict :
    ℕ
    → (String → Peer)
    → String
    → ConflictResolution
    → String
    → SyncDb
    → Result SyncConflict × SyncDb
resolve_conflict now peer conflict_id resolution owner_id db =
    resolve_loaded now peer resolution conflict_id (load_conflict conflict_id owner_id db) db

others_stay :
    (now : ℕ) (resolution : ConflictResolution) (id : String) (rows : List SyncConflict)
    → select
        (λ c. not (has_conflict_id id c))
        (update_first (has_conflict_id id) (resolved now resolution) rows)
      ≡ select (λ c. not (has_conflict_id id c)) rows
unfolding resolved
others_stay now resolution id [] = refl
others_stay now resolution id (c ∷ rows) = ground (arith, others_stay now resolution id rows)

committed_others :
    (now : ℕ) (resolution : ConflictResolution) (id : String) (c : SyncConflict)
    (o : Result Outcome) (db : SyncDb)
    → let after = (commit_resolution now resolution id c o db).1 in
      (select (λ x. not (has_conflict_id id x)) after.conflicts
        ≡ select (λ x. not (has_conflict_id id x)) db.conflicts)
      × (after.entries ≡ db.entries)
      × (after.instances ≡ db.instances)
committed_others now resolution id c (err e) db = (refl, refl, refl)
committed_others now resolution id c (ok o) db =
    (others_stay now resolution id db.conflicts, refl, refl)

loaded_others :
    (now : ℕ) (peer : String → Peer) (resolution : ConflictResolution) (id : String)
    (loaded : Result SyncConflict) (db : SyncDb)
    → let after = (resolve_loaded now peer resolution id loaded db).1 in
      (select (λ x. not (has_conflict_id id x)) after.conflicts
        ≡ select (λ x. not (has_conflict_id id x)) db.conflicts)
      × (after.entries ≡ db.entries)
      × (after.instances ≡ db.instances)
loaded_others now peer resolution id (err e) db = (refl, refl, refl)
loaded_others now peer resolution id (ok c) db = committed_others now resolution id c _ db

-- Resolving a conflict, by any owner and with any choice, leaves every other conflict, the
-- knowledge entries and the instances as they were.
pub resolve_touches_one :
    (now : ℕ) (peer : String → Peer) (id : String) (resolution : ConflictResolution)
    (owner : String) (db : SyncDb)
    → let after = (resolve_conflict now peer id resolution owner db).1 in
      (select (λ x. not (has_conflict_id id x)) after.conflicts
        ≡ select (λ x. not (has_conflict_id id x)) db.conflicts)
      × (after.entries ≡ db.entries)
      × (after.instances ≡ db.instances)
unfolding resolve_conflict
resolve_touches_one now peer id resolution owner db =
    loaded_others now peer resolution id (load_conflict id owner db) db
