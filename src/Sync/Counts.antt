-- ===== src/Sync/Counts.antt =====
-- The counts of the loop over entries in apps/api/app/services/sync_engine.py.
use mathlib.Core.List.{append-nil, append_assoc}
use replica_ai.Common.{
  ℕ, ◌+◌, ◌≡◌, ◌≤◌, refl, sym, ap, ◌∙◌, String, Bool, true, false, some, List, [], ◌∷◌, ◌++◌,
  length, count, select, arith, length-append, length-select, if◌then◌else◌,
}
use replica_ai.Common.Raise.{Result, ok, err}
use replica_ai.Sync.Tables.{SyncConflict, ConflictResolution, Entry}
use replica_ai.Sync.Transfer.{
  Link, Outcome, sent, differs, left, sync_entry, sync_entries, add_outcome, note_outcome,
  new_conflict, is_raised,
}

abbrev pub is_sent : Result Outcome → Bool
is_sent (ok sent) = true
is_sent (ok (differs hash)) = false
is_sent (ok left) = false
is_sent (err e) = false

abbrev pub is_different : Result Outcome → Bool
is_different (ok sent) = false
is_different (ok (differs hash)) = true
is_different (ok left) = false
is_different (err e) = false

-- The outcomes that the entries have, each on its own.
abbrev pub entries_sent : Link → List String → List Entry → ℕ
entries_sent l ids es = count (λ e. is_sent (sync_entry l ids e)) es

abbrev pub entries_different : Link → List String → List Entry → ℕ
entries_different l ids es = count (λ e. is_different (sync_entry l ids e)) es

-- A conflict that records an entry: its identifier, the two instances, and the log of the sync; it
-- is open, and holds the hash that the entry's check gave.
pub record Records (l : Link) (ids : List String) (e : Entry) (c : SyncConflict) : Type 0 where
  pub found : sync_entry l ids e ≡ ok (differs c.target_hash)
  pub entry : c.entry_id ≡ e.id
  pub source : c.source_instance ≡ l.source.id
  pub target : c.target_instance ≡ some l.target.id
  pub log : c.sync_log_id ≡ l.log_id
  pub is_open : c.resolution ≡ ConflictResolution.unresolved

-- The conflicts record the entries, one each and in their order.
abbrev pub RecordAll : Link → List String → List Entry → List SyncConflict → Type 0
RecordAll l ids [] [] = Unit
RecordAll l ids [] (c ∷ cs) = ⊥
RecordAll l ids (e ∷ es) [] = ⊥
RecordAll l ids (e ∷ es) (c ∷ cs) = Records l ids e c × RecordAll l ids es cs

-- The entries whose hashes differ.
abbrev pub different : Link → List String → List Entry → List Entry
different l ids es = select (λ e. is_different (sync_entry l ids e)) es

-- The specification of a loop that returned the counts `n`, begun with the conflicts `before`.
pub record Counted (l : Link) (ids : List String) (es : List Entry)
    (before after : List SyncConflict) (n : ℕ × ℕ) : Type 0 where
  pub synced : n.0 ≡ entries_sent l ids es
  pub conflicting : n.1 ≡ entries_different l ids es
  pub added : List SyncConflict
  pub logged : after ≡ before ++ added
  pub recorded : RecordAll l ids (different l ids es) added
  pub bounded : n.0 + n.1 ≤ length es

step_counted :
    (o : Result Outcome) (rest : Result (ℕ × ℕ)) (n : ℕ × ℕ)
    → add_outcome o rest ≡ ok n
    → (m : ℕ × ℕ) × (rest ≡ ok m)
      × (is_raised o ≡ false)
      × (n.0 ≡ (if is_sent o then 1 else 0) + m.0)
      × (n.1 ≡ (if is_different o then 1 else 0) + m.1)
step_counted (ok sent) (ok m) n e = (m, refl, refl, ground arith, ground arith)
step_counted (ok (differs hash)) (ok m) n e = (m, refl, refl, ground arith, ground arith)
step_counted (ok left) (ok m) n e = (m, refl, refl, ground arith, ground arith)
step_counted (ok o) (err x) n e = cc
step_counted (err x) rest n e = cc

-- What one entry adds.
abbrev new_ones : Link → Entry → Result Outcome → List SyncConflict
new_ones l e (ok sent) = []
new_ones l e (ok (differs hash)) = new_conflict l e hash ∷ []
new_ones l e (ok left) = []
new_ones l e (err x) = []

noted :
    (l : Link) (e : Entry) (o : Result Outcome) (db : List SyncConflict)
    → note_outcome l e o db ≡ db ++ new_ones l e o
noted l e (ok sent) db = sym (append-nil db)
noted l e (ok (differs hash)) db = refl
noted l e (ok left) db = sym (append-nil db)
noted l e (err x) db = sym (append-nil db)

recorded_first :
    (l : Link) (ids : List String) (e : Entry) (es : List Entry) (o : Result Outcome)
    (cs : List SyncConflict)
    → sync_entry l ids e ≡ o
    → RecordAll l ids (different l ids es) cs
    → RecordAll l ids
        (if is_different o then e ∷ different l ids es else different l ids es)
        (new_ones l e o ++ cs)
unfolding new_conflict
recorded_first l ids e es (ok sent) cs h all = all
recorded_first l ids e es (ok (differs hash)) cs h all = (
  record { found = h; entry = refl; source = refl; target = refl; log = refl; is_open = refl },
  all,
)
recorded_first l ids e es (ok left) cs h all = all
recorded_first l ids e es (err x) cs h all = all

length-RecordAll :
    (l : Link) (ids : List String) (es : List Entry) (cs : List SyncConflict)
    → RecordAll l ids es cs
    → length cs ≡ length es
length-RecordAll l ids [] [] h = refl
length-RecordAll l ids [] (c ∷ cs) h = absurd h
length-RecordAll l ids (e ∷ es) [] h = absurd h
length-RecordAll l ids (e ∷ es) (c ∷ cs) h = omega (arith, length-RecordAll l ids es cs h.1)

exclusive :
    (o : Result Outcome) → (if is_sent o then 1 else 0) + (if is_different o then 1 else 0) ≤ 1
exclusive (ok sent) = omega arith
exclusive (ok (differs hash)) = omega arith
exclusive (ok left) = omega arith
exclusive (err x) = omega arith

pub sync_entries-Counted :
    (l : Link) (ids : List String) (es : List Entry) (db : List SyncConflict) (n : ℕ × ℕ)
    → (sync_entries l ids es db).0 ≡ ok n
    → Counted l ids es db (sync_entries l ids es db).1 n
unfolding sync_entries
sync_entries-Counted l ids [] db n h = record {
  synced = ground arith;
  conflicting = ground arith;
  added = [];
  logged = sym (append-nil db);
  recorded = tt;
  bounded = ground arith;
}
sync_entries-Counted l ids (e ∷ es) db n h =
    let o = sync_entry l ids e in
    let db1 = note_outcome l e o db in
    let (m, rest, quiet, first_count, second_count) =
      step_counted o (sync_entries l ids es db1).0 n h in
    let ih = sync_entries-Counted l ids es db1 m rest in
    record {
      synced = omega (arith, first_count, ih.synced);
      conflicting = omega (arith, second_count, ih.conflicting);
      added = new_ones l e o ++ ih.added;
      logged = rw quiet (
          ih.logged
          ∙ ap (λ db. db ++ ih.added) (noted l e o db)
          ∙ append_assoc db (new_ones l e o) ih.added);
      recorded = recorded_first l ids e es o ih.added refl ih.recorded;
      bounded = omega (arith, first_count, second_count, ih.bounded, exclusive o);
    }

pub length-Counted :
    (l : Link) (ids : List String) (es : List Entry) (before after : List SyncConflict) (n : ℕ × ℕ)
    → Counted l ids es before after n
    → length after ≡ length before + n.1
length-Counted l ids es before after n c = omega (
  arith,
  ap length c.logged,
  length-append before c.added,
  length-RecordAll l ids (different l ids es) c.added c.recorded,
  length-select (λ e. is_different (sync_entry l ids e)) es,
  c.conflicting,
)
