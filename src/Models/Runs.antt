-- ===== src/Models/Runs.antt =====
-- core/models.py: the values of extractions, bindings, dbt's executions, plans and runs.
use dbtv.Common.{ℕ, String, Bool, List, Option, none, some, ◌∷◌, [], ◌==◌, if◌then◌else◌}
use Prim.Native.String.{◌++◌}
use dbtv.Models.{Relation, SourceMapping, CompatibilityFinding, Float}

-- `".".join(...)`.
unfoldable pub joined : List String → String
joined [] = ""
joined (x ∷ []) = x
joined (x ∷ y ∷ rest) = x ++ "." ++ joined (y ∷ rest)

-- The parts that are not empty.
unfoldable pub filled : List String → List String
filled [] = []
filled (x ∷ xs) = let rest = filled xs in if x == "" then rest else x ∷ rest

-- The property `display_name`.
unfoldable pub display_name : Relation → String
unfolding joined filled
display_name r = joined (
    filled (elim r.catalog [
      | none ↦ r.schema ∷ r.identifier ∷ []
      | some c ↦ c ∷ r.schema ∷ r.identifier ∷ []
    ]))

pub record ExtractionEstimate : Type 0 where
  pub row_count : Option ℕ
  pub byte_count : Option ℕ

pub record BindingResult : Type 0 where
  pub source_unique_id : String
  pub relation : String
  pub catalog_path : String
  pub verified : Bool
  pub row_count : Option ℕ

pub record BindingReport : Type 0 where
  pub results : List BindingResult
  pub attachments : List (String × String)

pub record DbtExecutionRequest : Type 0 where
  pub command : String
  pub project_dir : String
  pub profiles_dir : String
  pub target_path : String
  pub target : String
  pub select : List String
  pub exclude : List String
  pub variables : Option String
  pub full_refresh : Bool

pub record DbtExecutionResult : Type 0 where
  pub command : List String
  pub return_code : ℕ
  pub stdout : String
  pub stderr : String
  pub run_results_path : Option String

pub record DbtNodeResult : Type 0 where
  pub unique_id : String
  pub status : String
  pub message : Option String
  pub execution_time : Float
  pub failures : Option ℕ

pub record RunSummary : Type 0 where
  pub invocation_id : String
  pub command : String
  pub state : String
  pub exit_code : ℕ
  pub remote_connection_attempted : Bool
  pub remote_query_count : ℕ
  pub snapshots_reused : ℕ
  pub snapshots_refreshed : ℕ
  pub local_database : String
  pub dbt_target : String
  pub run_artifact_dir : String
  pub started_at : String
  pub completed_at : String
  pub timings : List (String × Float)
  pub warnings : List String
  pub dbt_results : List DbtNodeResult
  pub state_transitions : List (List (String × String))
  pub dataset_id : Option String

pub record ExecutionPlan : Type 0 where
  pub invocation_id : String
  pub project_dir : String
  pub project_name : String
  pub production_target : String
  pub local_target : String
  pub selected_ids : List String
  pub local_selected_ids : List String
  pub source_mappings : List SourceMapping
  pub findings : List CompatibilityFinding
  pub production_manifest_schema : String
  pub local_manifest_schema : String
  pub project_fingerprint : String
  pub plan_hash : String

pub record SourceCapabilities : Type 0 where
  pub arrow_streaming : Bool
  pub projection_pushdown : Bool
  pub predicate_pushdown : Bool
  pub limit_pushdown : Bool
  pub bernoulli_sampling : Bool
  pub deterministic_sampling : Bool
  pub snapshot_identity : Bool
  pub consistent_snapshot_time : Bool
  pub direct_duckdb_read : Bool
  pub cancellable_queries : Bool
  pub remote_access : Bool
