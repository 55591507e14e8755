-- ===== src/Backend.antt =====
-- backend/duckdb.py: the binding of snapshots to views of a DuckDB database.
pub mod Quote
pub mod Bind
pub mod Statements
pub mod Bound
pub mod Tests
