-- ===== src/Orchestration.antt =====
-- orchestration.py: the run of a command, from its plan to the end that the index records.
pub mod Run
pub mod Capture
pub mod Execute
pub mod Finished
pub mod Local
pub mod Traces
pub mod Kept
pub mod Stages
pub mod Readied
pub mod Bindings
pub mod Captured
pub mod Recorded
pub mod Tests
