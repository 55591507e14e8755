-- ===== src/Selection.antt =====
-- project/selection.py: the sources upstream of the selected nodes.
mod Walk
pub mod Ls
pub mod Reached
pub mod Steps
pub mod Complete
pub mod Tests
pub use Walk.{Walk as WalkState, Nodes}
unfoldable pub use Walk.{is_source, visit_next, walk, upstream_sources}
