-- ===== src/Budget.antt =====
-- resources.py: the budget of a run on extracted rows and bytes.
mod Consume
pub mod Roots
pub mod Disjoint
pub mod Totals
pub mod Tests
pub use Consume.{Limits, Budget as RunBudget, Batch}
unfoldable pub use Consume.{limits_of, rows_of, consume, consume_all}
