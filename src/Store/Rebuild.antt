-- ===== src/Store/Rebuild.antt =====
-- snapshot/store.py: `lookup`, `activate` and `rebuild_index`. The
-- paths and sidecars that `glob` finds are arguments, in the order in which they are read.
use dbtv.Common.{
  ℕ, ◌+◌, String, Bool, not, ◌&&◌, ◌==◌, List, [], ◌∷◌, ◌++◌, Option, none, some, if◌then◌else◌,
  leb, length, any_of, ◌||◌,
}
use dbtv.Errors.{Result, ok, err, ◌>>=◌, ◌>>◌}
use dbtv.Models.{DatasetSnapshot}
use dbtv.State.{
  SnapshotIndexRecord, Payload, Db, committed, row_state_eq, get_snapshot, activate,
  clear_snapshots, record_snapshot, list_datasets, commit_dataset,
}
use dbtv.Store.Settings.{Settings, Disk}
use dbtv.Store.Decide.{load, validate}

-- `lookup`: no record or one that is not committed gives none.
abbrev pub load_record : Disk → Option SnapshotIndexRecord → Result (Option DatasetSnapshot)
load_record disk none = ok none
load_record disk (some r) =
    if row_state_eq r.state committed
    then (load disk r.metadata_path >>= λ s. ok (some s))
    else ok none

unfoldable pub find_snapshot : Disk → String → Db → Result (Option DatasetSnapshot)
find_snapshot disk k db = load_record disk (get_snapshot k db)

unfoldable pub activate_snapshot : Settings → Disk → DatasetSnapshot → Db → Result Db
activate_snapshot settings disk s db =
    validate settings.integrity disk s >> activate s.source.unique_id s.snapshot_key db

-- The snapshots recovered so far, the number of corrupt ones, and the index.
pub record Recovery : Type 0 where
  pub recovered : List DatasetSnapshot
  pub corrupt : ℕ
  pub db : Db

abbrev pub recover : String → Result DatasetSnapshot → Recovery → Recovery
recover path (err e) r = record r { corrupt = r.corrupt + 1 }
recover path (ok s) r = record r {
  recovered = r.recovered ++ s ∷ [];
  db = record_snapshot s path r.db;
}

-- The loop over the metadata files. Only a CacheError is counted, and `load` and `validate` raise no
-- other.
unfoldable pub recover_all : Settings → Disk → List String → Recovery → Recovery
recover_all settings disk [] r = r
recover_all settings disk (path ∷ paths) r =
    recover_all settings disk paths
      (recover path (load disk path >>= λ s. validate settings.integrity disk s >> ok s) r)

-- `sorted(recovered, key=lambda item: item.completed_at)`.
unfoldable pub place_completed : DatasetSnapshot → List DatasetSnapshot → List DatasetSnapshot
place_completed s [] = s ∷ []
place_completed s (t ∷ ts) =
    if leb s.completed_at t.completed_at then s ∷ t ∷ ts else t ∷ place_completed s ts

unfoldable pub by_completion : List DatasetSnapshot → List DatasetSnapshot
unfolding place_completed
by_completion [] = []
by_completion (s ∷ ss) = place_completed s (by_completion ss)

-- Only snapshots without a scope are activated on their own.
unfoldable pub activate_unscoped : List DatasetSnapshot → Db → Result Db
activate_unscoped [] db = ok db
activate_unscoped (s ∷ ss) db =
    (if s.connection_scope == "" then activate s.source.unique_id s.snapshot_key db else ok db)
    >>= activate_unscoped ss

-- Datasets are committed one after the other, and one that cannot be is skipped.
abbrev pub or_same : Result Db → Db → Db
or_same (ok after) db = after
or_same (err e) db = db

unfoldable pub commit_datasets : List (Payload × Bool) → Db → Db
commit_datasets [] db = db
commit_datasets (p ∷ ps) db = commit_datasets ps (or_same (commit_dataset p.0.dataset_id p.0 db) db)

-- `payloads.setdefault` on the datasets of the index, for a sidecar whose id is its digest. `digest`
-- hashes what identifies a dataset.
abbrev pub has_id : String → (Payload × Bool) → Bool
has_id id p = p.0.dataset_id == id

unfoldable pub with_sidecars :
    (Payload → String) → List (Payload × Bool) → List (Payload × Bool) → List (Payload × Bool)
with_sidecars digest payloads [] = payloads
with_sidecars digest payloads (p ∷ ps) =
    with_sidecars digest
      (if digest p.0 == p.0.dataset_id && not (any_of (has_id p.0.dataset_id) payloads)
        then payloads ++ p ∷ []
        else payloads)
      ps

-- The order of the last loop: the active dataset last, and before it by the latest capture.
-- `completed` is the latest `completed_at` of the sources that a payload lists.
abbrev pub is_before : (Payload → ℕ) → (Payload × Bool) → (Payload × Bool) → Bool
is_before completed p q =
    if p.1
    then q.1 && leb (completed p.0) (completed q.0)
    else q.1 || leb (completed p.0) (completed q.0)

unfoldable pub place_payload :
    (Payload → ℕ) → (Payload × Bool) → List (Payload × Bool) → List (Payload × Bool)
place_payload completed p [] = p ∷ []
place_payload completed p (q ∷ qs) =
    if is_before completed p q then p ∷ q ∷ qs else q ∷ place_payload completed p qs

unfoldable pub in_order : (Payload → ℕ) → List (Payload × Bool) → List (Payload × Bool)
unfolding place_payload
in_order completed [] = []
in_order completed (p ∷ ps) = place_payload completed p (in_order completed ps)

-- An error of an activation leaves the index as far as it has been rebuilt; only the error is kept.
unfoldable pub rebuild_index :
    Settings
    → Disk
    → (Payload → String)
    → (Payload → ℕ)
    → List String
    → List (Payload × Bool)
    → Db
    → Result ((ℕ × ℕ) × Db)
unfolding recover_all by_completion activate_unscoped commit_datasets with_sidecars in_order
rebuild_index settings disk digest completed paths sidecars db =
    let r =
      recover_all settings disk paths
        (record { recovered = []; corrupt = 0; db = clear_snapshots db }) in
    activate_unscoped (by_completion r.recovered) r.db >>= λ activated. ok (
      (length r.recovered, r.corrupt),
      commit_datasets (in_order completed (with_sidecars digest (list_datasets activated) sidecars))
          activated,
    )
