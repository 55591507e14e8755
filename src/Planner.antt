-- ===== src/Planner.antt =====
-- project/planner.py: the findings and the source mappings of a plan.
mod Mapping
pub mod Commands
pub mod Mapped
pub mod Restored
pub mod Tests
pub use Mapping.{Mapped as MappedSources}
unfoldable pub use Mapping.{union, target_findings, map_source, map_sources, plan_sources}
