-- ===== src/State/Tables.antt =====
-- state.py: the tables, and the statements on the table of snapshots.
use dbtv.Common.{
  ℕ, String, Bool, true, false, not, ◌&&◌, ◌==◌, List, [], ◌∷◌, map, Option, if◌then◌else◌, ltb,
  keep, first_of_test,
}
use dbtv.Models.{DatasetSnapshot}

pub data RowState : Type 0 where
  committed corrupt : RowState

abbrev pub row_state_eq : RowState → RowState → Bool
row_state_eq committed committed = true
row_state_eq corrupt corrupt = true
row_state_eq _ _ = false

-- A row of `snapshots`.
pub record SnapshotIndexRecord : Type 0 where
  pub snapshot_key : String
  pub request_fingerprint : String
  pub source_unique_id : String
  pub state : RowState
  pub created_at : ℕ
  pub expires_at : Option ℕ
  pub row_count : ℕ
  pub byte_count : ℕ
  pub metadata_path : String
  pub active : Bool
  pub pinned : Bool

-- The parts of a dataset's payload that the program reads again.
pub record Payload : Type 0 where
  pub format_version : ℕ
  pub snapshots : List (String × String)
  pub source_scopes : List (String × String)
  pub dataset_id : String
  pub created_by_run : String
  pub project_fingerprint : String

pub record DatasetRow : Type 0 where
  pub dataset_id : String
  pub payload : Payload
  pub active : Bool

-- A row of `dataset_snapshots`.
pub record Link : Type 0 where
  pub dataset_id : String
  pub source_unique_id : String
  pub snapshot_key : String

pub record RunRow : Type 0 where
  pub invocation_id : String
  pub command : String
  pub state : String
  pub started_at : ℕ
  pub completed_at : Option ℕ
  pub remote_query_count : ℕ
  pub artifact_path : String
  pub exit_code : Option ℕ

-- The object that `local_relation_json` holds.
pub record LocalRelation : Type 0 where
  pub catalog : Option String
  pub schema : String
  pub identifier : String

pub record BindingRow : Type 0 where
  pub invocation_id : String
  pub source_unique_id : String
  pub snapshot_key : String
  pub local_relation : LocalRelation

pub record Db : Type 0 where
  pub snapshots : List SnapshotIndexRecord
  pub datasets : List DatasetRow
  pub dataset_snapshots : List Link
  pub runs : List RunRow
  pub bindings : List BindingRow

abbrev pub empty : Db
empty = record { snapshots = []; datasets = []; dataset_snapshots = []; runs = []; bindings = [] }

-- `WHERE snapshot_key=?`.
abbrev pub is_key : String → SnapshotIndexRecord → Bool
is_key k r = r.snapshot_key == k

-- The row that `INSERT` makes, and what `ON CONFLICT ... DO UPDATE` does to an old row.
abbrev pub inserted : DatasetSnapshot → String → SnapshotIndexRecord
inserted snapshot path = record {
  snapshot_key = snapshot.snapshot_key;
  request_fingerprint = snapshot.request_fingerprint;
  source_unique_id = snapshot.source.unique_id;
  state = committed;
  created_at = snapshot.created_at;
  expires_at = snapshot.expires_at;
  row_count = snapshot.row_count;
  byte_count = snapshot.byte_count;
  metadata_path = path;
  active = false;
  pinned = snapshot.pinned;
}

abbrev pub updated : SnapshotIndexRecord → SnapshotIndexRecord → SnapshotIndexRecord
updated excluded old = record old {
  state = committed;
  expires_at = excluded.expires_at;
  row_count = excluded.row_count;
  byte_count = excluded.byte_count;
  metadata_path = excluded.metadata_path;
  pinned = excluded.pinned;
}

-- The upsert on the primary key.
unfoldable pub upsert : SnapshotIndexRecord → List SnapshotIndexRecord → List SnapshotIndexRecord
upsert new [] = new ∷ []
upsert new (r ∷ rs) = if is_key new.snapshot_key r then updated new r ∷ rs else r ∷ upsert new rs

unfoldable pub record_snapshot : DatasetSnapshot → String → Db → Db
record_snapshot snapshot path db = record db {
  snapshots = upsert (inserted snapshot path) db.snapshots;
}

unfoldable pub get_snapshot : String → Db → Option SnapshotIndexRecord
get_snapshot k db = first_of_test (is_key k) db.snapshots

-- `ORDER BY created_at DESC`: the latest first, and equal ones as they stand in the table.
unfoldable pub place : SnapshotIndexRecord → List SnapshotIndexRecord → List SnapshotIndexRecord
place r [] = r ∷ []
place r (s ∷ rs) = if ltb s.created_at r.created_at then r ∷ s ∷ rs else s ∷ place r rs

unfoldable pub latest_first :
    List SnapshotIndexRecord → List SnapshotIndexRecord → List SnapshotIndexRecord
unfolding place
latest_first sorted [] = sorted
latest_first sorted (r ∷ rs) = latest_first (place r sorted) rs

unfoldable pub list_snapshots : Db → List SnapshotIndexRecord
unfolding latest_first
list_snapshots db = latest_first [] db.snapshots

abbrev pub is_active_of : String → String → SnapshotIndexRecord → Bool
is_active_of source fingerprint r =
    r.source_unique_id == source
    && r.request_fingerprint == fingerprint
    && r.active
    && row_state_eq r.state committed

unfoldable pub active_snapshot : String → String → Db → Option SnapshotIndexRecord
unfolding latest_first
active_snapshot source fingerprint db =
    first_of_test (λ r. true)
      (latest_first [] (keep (is_active_of source fingerprint) db.snapshots))

abbrev pub corrupted : String → SnapshotIndexRecord → SnapshotIndexRecord
corrupted k r = if is_key k r then record r { state = corrupt; active = false } else r

unfoldable pub mark_corrupt : String → Db → Db
mark_corrupt k db = record db { snapshots = map (corrupted k) db.snapshots }

abbrev pub with_pin : String → Bool → SnapshotIndexRecord → SnapshotIndexRecord
with_pin k pinned r = if is_key k r then record r { pinned = pinned } else r

unfoldable pub set_pinned : String → Bool → Db → Db
set_pinned k pinned db = record db { snapshots = map (with_pin k pinned) db.snapshots }

unfoldable pub clear_snapshots : Db → Db
clear_snapshots db = record db { snapshots = [] }

unfoldable pub delete_snapshot : String → Db → Db
delete_snapshot k db = record db { snapshots = keep (λ r. not (is_key k r)) db.snapshots }
