-- ===== src/Sources.antt =====
-- sources.py: planned sources and the order in which they are captured.
mod Planned
pub mod Options
pub mod Cohorts
pub mod Prepare
pub mod Settle
pub mod Preparation
pub mod Prepared
pub mod Settled
pub mod Checked
pub mod Untouched
pub mod Routes
pub mod Promises
pub mod Examples
pub mod Scope
mod Equality
pub mod Layers
pub mod Ranked
pub mod Tests
pub use Planned.{PlannedSource, SameSource}
unfoldable pub use Planned.{unique_id, is_waiting, ready, waiting, levels, source_levels}
