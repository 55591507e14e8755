-- ===== src/Orchestration/Run.antt =====
-- orchestration.py: the states of a run, the arguments of dbt, and the capabilities that a sampling
-- needs. The transitions of a run stand in a list, the latest first.
use dbtv.Common.{
  ℕ, String, Bool, true, ◌&&◌, ◌||◌, ◌==◌, List, [], ◌∷◌, ◌++◌, Option, none, some, if◌then◌else◌,
}
use dbtv.Errors.{Result, policy_error, require}
use dbtv.Models.{SamplingStrategy, full, limit, where_, where_limit, hash, bernoulli, SamplingSpec}
use dbtv.Models.Runs.{SourceCapabilities}
use dbtv.State.{Db, update_run_state}
use dbtv.Budget.{RunBudget}
use dbtv.Store.Write.{Files}
use dbtv.Sources.Options.{CommandOptions}

pub data RunState : Type 0 where
  planning planned policy_approved sources_ready bound dbt_completed : RunState
  succeeded dbt_failed failed : RunState

unfoldable pub state_text : RunState → String
state_text planning = "PLANNING"
state_text planned = "PLANNED"
state_text policy_approved = "POLICY_APPROVED"
state_text sources_ready = "SOURCES_READY"
state_text bound = "BOUND"
state_text dbt_completed = "DBT_COMPLETED"
state_text succeeded = "SUCCEEDED"
state_text dbt_failed = "DBT_FAILED"
state_text failed = "FAILED"

-- The local variables of `_execute`.
pub record Run : Type 0 where
  pub files : Files
  pub budget : RunBudget
  pub remote_attempted : Bool
  pub remote_queries : ℕ
  pub reused : ℕ
  pub refreshed : ℕ
  pub transitions : List RunState

-- The index of a run, changed.
abbrev pub with_db : Db → Run → Run
with_db db run = record run { files = record run.files { db = db } }

-- `transition`.
unfoldable pub transition : String → RunState → Run → Run
transition id state run = record run {
  files = record run.files { db = update_run_state id (state_text state) run.files.db };
  transitions = state ∷ run.transitions;
}

-- A text or a list that is given and not empty.
abbrev pub listed : String → List String → List String
listed flag [] = []
listed flag (x ∷ xs) = flag ∷ x ∷ xs

abbrev pub valued : String → Option String → List String
valued flag none = []
valued flag (some v) = if v == "" then [] else flag ∷ v ∷ []

abbrev pub is_run_or_build : String → Bool
is_run_or_build command = command == "run" || command == "build"

-- `_dbt_args`, for the paths of the project, of the generated profiles and of the target.
unfoldable pub dbt_args : String → String → String → String → CommandOptions → List String
dbt_args command project profiles target options =
    command
    ∷ "--project-dir"
    ∷ project
    ∷ "--profiles-dir"
    ∷ profiles
    ∷ "--target"
    ∷ "dbtv_local"
    ∷ "--target-path"
    ∷ target
    ∷ (listed "--select" options.select
        ++ (listed "--exclude" options.exclude
            ++ (valued "--vars" options.variables
                ++ (if options.full_refresh && is_run_or_build command
                    then "--full-refresh" ∷ []
                    else []))))

-- What `_validate_capabilities` demands for a strategy.
abbrev pub is_supported : SamplingStrategy → SourceCapabilities → Bool
is_supported full c = true
is_supported hash c = c.deterministic_sampling
is_supported bernoulli c = c.bernoulli_sampling
is_supported where_ c = c.predicate_pushdown
is_supported limit c = c.limit_pushdown
is_supported where_limit c = c.predicate_pushdown && c.limit_pushdown

unfoldable pub validate_capabilities : SamplingSpec → SourceCapabilities → Result (Unit {0})
validate_capabilities s c = require (is_supported s.strategy c) policy_error
