-- ===== src/State/Activation.antt =====
-- state.py: activation of snapshots, and datasets.
use dbtv.Common.{
  String, Bool, true, false, not, ◌&&◌, ◌==◌, List, [], ◌∷◌, ◌++◌, map, none, some, if◌then◌else◌,
  keep, any_of, first_of_test, member,
}
use dbtv.Errors.{Result, ok, err, cache_error, ◌>>=◌}
use dbtv.State.Tables.{
  SnapshotIndexRecord, Payload, DatasetRow, Link, Db, committed, row_state_eq, is_key,
}

-- `WHERE snapshot_key=? AND source_unique_id=? AND state='COMMITTED'`.
abbrev pub is_candidate : String → String → SnapshotIndexRecord → Bool
is_candidate source k r =
    is_key k r && r.source_unique_id == source && row_state_eq r.state committed

-- The two updates of `_activate`, on one row.
abbrev pub in_group : String → String → SnapshotIndexRecord → Bool
in_group source fingerprint r = r.source_unique_id == source && r.request_fingerprint == fingerprint

abbrev pub switched_off : String → String → SnapshotIndexRecord → SnapshotIndexRecord
switched_off source fingerprint r =
    if in_group source fingerprint r then record r { active = false } else r

abbrev pub switched_on : String → SnapshotIndexRecord → SnapshotIndexRecord
switched_on k r = if is_key k r then record r { active = true } else r

-- One round of the loop of `_activate`.
unfoldable pub activate_one :
    String → String → List SnapshotIndexRecord → Result (List SnapshotIndexRecord)
activate_one source k rows = elim (first_of_test (is_candidate source k) rows) [
  | none ↦ err cache_error
  | some row ↦ ok (map (switched_on k) (map (switched_off source row.request_fingerprint) rows))
]

unfoldable pub activate_all :
    List (String × String) → List SnapshotIndexRecord → Result (List SnapshotIndexRecord)
activate_all [] rows = ok rows
activate_all ((source, k) ∷ rest) rows = activate_one source k rows >>= activate_all rest

unfoldable pub activate_many : List (String × String) → Db → Result Db
activate_many snapshots db = do
  rows ← activate_all snapshots db.snapshots
  ok (record db { snapshots = rows })

unfoldable pub activate : String → String → Db → Result Db
activate source k db = activate_many ((source, k) ∷ []) db

-- `UPDATE datasets SET active=0`, then the upsert of the dataset's row.
abbrev pub retired : DatasetRow → DatasetRow
retired d = record d { active = false }

unfoldable pub upsert_dataset : String → Payload → List DatasetRow → List DatasetRow
upsert_dataset id payload [] = (record { dataset_id = id; payload = payload; active = true }) ∷ []
upsert_dataset id payload (d ∷ ds) =
    if d.dataset_id == id
    then (record d { active = true }) ∷ ds
    else d ∷ upsert_dataset id payload ds

-- `INSERT OR IGNORE` on the key (dataset, source).
abbrev pub is_link : String → String → Link → Bool
is_link id source l = l.dataset_id == id && l.source_unique_id == source

unfoldable pub insert_links : String → List (String × String) → List Link → List Link
insert_links id [] links = links
insert_links id ((source, k) ∷ rest) links = insert_links id rest (
    if any_of (is_link id source) links
    then links
    else links ++ (record { dataset_id = id; source_unique_id = source; snapshot_key = k }) ∷ [])

unfoldable pub commit_dataset : String → Payload → Db → Result Db
unfolding upsert_dataset insert_links
commit_dataset id payload db = do
  rows ← activate_all payload.snapshots db.snapshots
  ok (record db {
    snapshots = rows;
    datasets = upsert_dataset id payload (map retired db.datasets);
    dataset_snapshots = insert_links id payload.snapshots db.dataset_snapshots;
  })

abbrev pub is_dataset : String → DatasetRow → Bool
is_dataset id d = d.dataset_id == id

unfoldable pub get_dataset : String → Db → Result Payload
get_dataset id db = elim (first_of_test (is_dataset id) db.datasets) [
  | none ↦ err cache_error
  | some d ↦ ok d.payload
]

unfoldable pub list_datasets : Db → List (Payload × Bool)
list_datasets db = map (λ d. (d.payload, d.active)) db.datasets

-- `SELECT DISTINCT snapshot_key FROM dataset_snapshots`, as a Python set.
unfoldable pub distinct : List String → List String → List String
distinct seen [] = seen
distinct seen (k ∷ ks) = distinct (if member k seen then seen else seen ++ k ∷ []) ks

unfoldable pub dataset_references : Db → List String
unfolding distinct member
dataset_references db = distinct [] (map (λ l. l.snapshot_key) db.dataset_snapshots)

unfoldable pub delete_dataset : String → Db → Db
delete_dataset id db = record db {
  dataset_snapshots = keep (λ l. not (l.dataset_id == id)) db.dataset_snapshots;
  datasets = keep (λ d. not (is_dataset id d)) db.datasets;
}
