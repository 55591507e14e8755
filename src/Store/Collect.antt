-- ===== src/Store/Collect.antt =====
-- snapshot/store.py: the size of the cache and garbage collection. `inside` is the test that the
-- resolved parent of a metadata path is a proper part of the snapshots' root. The loop also removes
-- the directory of each record that it deletes.
use dbtv.Common.{
  ℕ, ◌+◌, String, Bool, false, ◌||◌, List, [], ◌∷◌, ◌++◌, Option, none, some, if◌then◌else◌, ltb,
  leb, sum_of, member, lookup, insert,
}
use dbtv.State.{SnapshotIndexRecord, Db, list_snapshots, delete_snapshot, dataset_references}
use dbtv.Store.Settings.{Settings}
use dbtv.Store.Metadata.{get_or}

unfoldable pub current_size : Db → ℕ
current_size db = sum_of (λ (r : SnapshotIndexRecord). r.byte_count) (list_snapshots db)

-- The local variables of the loop, the index, and the metadata paths whose directories are gone.
pub record Collection : Type 0 where
  pub db : Db
  pub retained_by_source : List (String × ℕ)
  pub removed : ℕ
  pub bytes_removed : ℕ
  pub removed_paths : List String

abbrev pub retained : Collection → SnapshotIndexRecord → ℕ
retained c r = get_or (lookup r.source_unique_id c.retained_by_source) 0

abbrev pub is_recent : Option ℕ → SnapshotIndexRecord → Bool
is_recent none r = false
is_recent (some t) r = leb t r.created_at

module _ (settings : Settings) (older_than : Option ℕ) (inside : String → Bool)
    (referenced : List String) where
  abbrev pub is_kept : Collection → SnapshotIndexRecord → Bool
  is_kept c r =
      r.active
      || r.pinned
      || ltb (retained c r) settings.retain_previous
      || member r.snapshot_key referenced

  -- One round of the loop.
  unfoldable pub collect_record : SnapshotIndexRecord → Collection → Collection
  collect_record r c =
      if is_kept c r
      then record c {
        retained_by_source = insert r.source_unique_id (retained c r + 1) c.retained_by_source;
      }
      else if is_recent older_than r
      then c
      else if inside r.metadata_path
      then record c {
        db = delete_snapshot r.snapshot_key c.db;
        removed = c.removed + 1;
        bytes_removed = c.bytes_removed + r.byte_count;
        removed_paths = c.removed_paths ++ r.metadata_path ∷ [];
      }
      else c

  unfoldable pub collect_records : List SnapshotIndexRecord → Collection → Collection
  collect_records [] c = c
  collect_records (r ∷ rs) c = collect_records rs (collect_record r c)

-- The local variables before the loop.
abbrev pub started : Db → Collection
started db = record {
  db = db;
  retained_by_source = [];
  removed = 0;
  bytes_removed = 0;
  removed_paths = [];
}

unfoldable pub garbage_collect : Settings → Option ℕ → (String → Bool) → Db → Collection
garbage_collect settings older_than inside db =
    collect_records settings older_than inside (dataset_references db) (list_snapshots db)
      (started db)
