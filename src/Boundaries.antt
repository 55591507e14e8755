-- ===== src/Boundaries.antt =====
-- project/boundaries.py: what a selection needs from outside of it, and its lineage.
pub mod Visit
pub mod Visited
pub mod Steps
pub mod Complete
pub mod Notes
pub mod Lineage
pub mod Listed
pub mod Exact
pub mod Tests
