-- ===== src/Lib.antt =====
-- A verification library for dbtv, a program that runs a dbt project locally on samples of its sources.
--
-- A command plans a run: dbt's manifests of the production and the local target are resolved, the
-- sources upstream of the selection are found and mapped, and findings may stop the run. For each
-- source the policy decides on its sampling, and the store decides whether a snapshot is reused or the
-- source is captured again, level by level where sources depend on one another. The snapshots are
-- committed to the index as one dataset, and dbt runs on them. The parts meet in the values of
-- core/models.py, and the index is the state that the store, the datasets and the runs share.
--
-- The files and the code that they are about, with its paths from the repository's root:
--   Errors         src/dbtv/core/errors.py: the errors, and `Result` for calls that may raise; Calls is
--                  about calls that change a state as well.
--   Models         src/dbtv/core/models.py: the values that the parts exchange.
--   Json           the values of `json` and `yaml`.
--   Config         src/dbtv/config/schema.py: settings, and their validators in Config/Validate.
--   Policy         src/dbtv/snapshot/policy.py: Sampling has `resolve_sampling` and `apply_max_rows`,
--                  Evaluate has `LocalPolicyEngine.evaluate_sampling`.
--   State          src/dbtv/state.py: Tables, Activation and Runs have the methods of `StateIndex`
--                  under their names; the rest are its properties.
--   Store          src/dbtv/snapshot/store.py and keys.py: Metadata, Decide, Write and Commit (which
--                  are `write`, `pin` and `snapshot_key`), Collect and Rebuild.
--   Sources        src/dbtv/sources.py: Planned has `PlannedSource` and `source_levels`, Scope has
--                  `source_matches`, `connection_scope` and `_resolve_value` of
--                  src/dbtv/credentials/dbt_profile.py, Cohorts has `materialize_cohort`. Prepare,
--                  Settle and Preparation have the first loop, the second loop and the whole of
--                  `prepare_sources`; Options has `CommandOptions` of src/dbtv/orchestration.py.
--   Selection      src/dbtv/project/selection.py: Walk has `upstream_sources`, Ls `parse_dbt_ls_json`.
--   Boundaries     src/dbtv/project/boundaries.py: Visit has the two functions `visit` as one walk, Lineage
--                  has `lineage` and `dependency_boundaries`.
--   Planner        src/dbtv/project/planner.py: Mapping has the part of `ProjectPlanner.build` that
--                  maps sources, Commands has `_list`, `_parse` and `_resolve_target`.
--   Compatibility  src/dbtv/compatibility.py: the rules and the analyzer.
--   Budget         src/dbtv/resources.py: `RunBudget`: Consume has `consume`, Roots `check_disk`,
--                  `_distinct_roots` and `_size`.
--   Cancellation   src/dbtv/core/cancellation.py: the token as a step relation over threads.
--   Backend        src/dbtv/backend/duckdb.py: Quote has the quoting of SQL, Bind `bind` and `verify`,
--                  with the statements that were executed; Statements reads these independently.
--   Orchestration  src/dbtv/orchestration.py: Run has the states of a run, `_dbt_args` and
--                  `_validate_capabilities`, Capture has `_refresh`, Execute has `_execute` in stages.
--                  Stages, Readied and Bindings are about the stages, Local and Finished about the whole run, Captured and
--                  Recorded about the row of the run in the index.
--   Common         shared names, tests, lists, dictionaries and sorting.
--   Samples        small values for the runs in the modules called Tests.
--
-- Conventions. A moment is a number of microseconds, a size a number of bytes, and a duration a number
-- of microseconds. A table of SQLite is the list of its rows, and a transaction that raises changes
-- nothing. A method that changes an object takes the state and returns the new one. A dictionary is an
-- association list in the order of insertion, and a set is a list. Texts for the reader (messages,
-- hints, remediations) are left out.
--
-- Loops run on fuel in three places. `upstream_sources` has a round for each selected node and for each
-- dependency that the manifest lists, since a node's dependencies are listed once. `source_levels`
-- has a round for each source, since each round removes at least one. The recursion of `visit` has a
-- level for each node of the manifest and one more, since it marks a node before it enters its parents;
-- Python's own limit on the depth is left out. Each is proved to be enough.
--
-- Parameters stand for code that is not in the repository: the file system, `hashlib`, `json`, `pyarrow`
-- and `pathlib` (`Disk`, `Writer`, `Workshop`, `Environment`, `Paths`), DuckDB (`Duck`, and `execute` of
-- `Surroundings`), the connectors (`Services`), `fnmatch`, `re.search`, and the equality that `@dataclass`
-- generates, which Sources/Equality also defines. Removing a directory is taken to succeed, and so are the calls
-- of SQLite and what a run does before it is recorded (directories, the event of its start). `Stages`
-- holds what the planner, dbt, the monitor of the disk and the files of a run answer, in any combination.
--
-- A run is modelled as one sequence of calls: the captures of a level, which a pool of threads makes, are
-- made one after the other, sessions are not pooled, and locks are taken to be free.
--
-- Not modelled: the command line, the connectors, the registries, the validation of runs, locks, the
-- workspace, events and reports, the parsing of sizes and durations, the loader of the configuration, `inspect` and `check_prerequisites` of the backend, and the thread that
-- monitors the disk.
pub mod Common
pub mod Errors
pub mod Models
pub mod Json
pub mod Config
pub mod Samples
pub mod Policy
pub mod Sources
pub mod State
pub mod Store
pub mod Selection
pub mod Compatibility
pub mod Planner
pub mod Budget
pub mod Cancellation
pub mod Backend
pub mod Boundaries
pub mod Orchestration
