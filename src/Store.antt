-- ===== src/Store.antt =====
-- snapshot/store.py and snapshot/keys.py: the store of immutable snapshots.
mod Settings
mod Metadata
mod Decide
mod Collect
pub mod Write
pub mod Commit
pub mod Committed
pub mod Untouched
pub mod Quota
pub mod WriteTests
pub mod Rebuild
pub mod Rebuilt
pub mod RoundTrip
pub mod Decisions
pub mod Retention
pub mod Accounting
pub mod Tests
pub use Settings.*
unfoldable pub use Metadata.*
pub use Settings.{Settings as StoreSettings}
pub use Decide.{given, is_local_mode, is_refresh_mode}
unfoldable pub use Decide.{
  request_fingerprint, load, validate_file, validate_files, validate, pick_record, usable, fetch,
  is_expired, conclude, decide,
}
unfoldable pub use Collect.{current_size, collect_record, collect_records, garbage_collect}
