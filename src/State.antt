-- ===== src/State.antt =====
-- state.py: the index of snapshots, datasets, runs and bindings, which the program keeps in SQLite.
--
-- A table is the list of its rows in order of their insertion, and an SQL statement is a function
-- on it. A block `with self._connect()` commits at its end and changes nothing when it raises, so
-- the only method that raises after a write, activation, returns the new tables or an error.
mod Tables
mod Activation
mod Runs
pub mod Valid
pub mod Exclusive
pub mod Active
pub mod Publication
pub mod Refinement
pub mod Untouched
pub mod Datasets
pub mod Trace
pub mod Listing
pub mod Tests
pub use Tables.{RowState, SnapshotIndexRecord, Payload, DatasetRow, Link, RunRow, BindingRow, Db}
pub use Tables.{committed, corrupt, empty}
unfoldable pub use Tables.{
  upsert, row_state_eq, is_key, corrupted, get_snapshot, active_snapshot, place, latest_first,
  list_snapshots, record_snapshot, mark_corrupt, set_pinned, clear_snapshots, delete_snapshot,
}
unfoldable pub use Activation.{
  upsert_dataset, insert_links, activate_one, activate_all, activate, activate_many, commit_dataset,
  get_dataset, list_datasets, dataset_references, delete_dataset,
}
pub use Runs.{is_run, finished, moved}
unfoldable pub use Runs.{start_run, finish_run, update_run_state, record_binding}
