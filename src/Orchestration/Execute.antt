-- ===== src/Orchestration/Execute.antt =====
-- orchestration.py: `_execute`. `Stages` holds what the planner, the disk's monitor, the token, dbt and
-- the files of a run answer. The files that are written for the reader (plan, lineage, reports, events)
-- and the timings are left out; that writing them may raise is part of the answers.
-- What comes before `start_run` (directories, the event of the start, opening the index) and the index's
-- own calls are taken to succeed.
use dbtv.Common.{
  ℕ, String, Bool, true, false, not, ◌&&◌, ◌||◌, ◌==◌, List, [], ◌∷◌, map, Option, none, some,
  if◌then◌else◌, lookup, insert, keep, any_of, all_of, length, nat_eq,
}
use dbtv.Errors.{
  DbtvError, Result, ok, err, exit_code, policy_error, internal_error, offline_violation,
  compatibility_error, require, ◌>>=◌, ◌>>◌,
}
use dbtv.Errors.Calls.{continue}
use dbtv.Models.{
  DatasetSnapshot, SnapshotAction, SourceMode, offline, CompatibilityFinding, SourceBinding,
  SourceMapping,
}
use dbtv.Models.Runs.{ExecutionPlan, BindingReport}
use dbtv.Config.Whole.{DbtvConfig}
use dbtv.Compatibility.{analyze_schema}
use dbtv.Budget.{limits_of, Limits}
use dbtv.State.{Db, Payload, start_run, finish_run, commit_dataset, record_binding}
use dbtv.Store.{StoreSettings}
use dbtv.Store.Write.{Files, pin}
use dbtv.Backend.Bind.{Duck, bind, verify}
use dbtv.Sources.{PlannedSource, unique_id, source_levels}
use dbtv.Sources.Options.{CommandOptions}
use dbtv.Sources.Prepare.{Surroundings}
use dbtv.Sources.Cohorts.{materialize_cohort}
use dbtv.Sources.Preparation.{SourcePreparation, prepare_sources}
use dbtv.Orchestration.Run.{
  RunState, planning, planned, policy_approved, sources_ready, bound, dbt_completed, succeeded,
  dbt_failed, failed, state_text, Run, with_db, transition, is_run_or_build,
}
use dbtv.Orchestration.Capture.{Services, refresh_all}

pub record Stages : Type 0 where
  pub start : Result (Unit {0})
  pub plan : Result ExecutionPlan
  pub ready : Result (Unit {0})
  -- For each prerequisite of the selection, whether it is there.
  pub prerequisites : BindingReport → Result (List Bool)
  -- The return code of dbt, and the results that are loaded afterwards.
  pub run_dbt : Result ℕ
  pub load_results : Result (Unit {0})
  pub capture_outputs : Result (Unit {0})
  pub done : Result (Unit {0})
  -- The event of the end, the report and the event of a failure, and the file that is written at last.
  pub completed_event : Result (Unit {0})
  pub failure_reported : Result (Unit {0})
  pub resources_written : Result (Unit {0})
  -- `budget.failure`, when an error is handled.
  pub failure : Option DbtvError
  pub hash_dataset : List (String × String) → List (String × String) → String
  pub search : String → String → Bool
  pub started_at : ℕ
  pub completed_at : ℕ

abbrev pub is_error : CompatibilityFinding → Bool
is_error f = f.severity == "error"

abbrev pub is_action : SnapshotAction → SnapshotAction → Bool
is_action SnapshotAction.reuse SnapshotAction.reuse = true
is_action SnapshotAction.refresh SnapshotAction.refresh = true
is_action SnapshotAction.missing SnapshotAction.missing = true
is_action _ _ = false

abbrev pub with_action : SnapshotAction → List PlannedSource → List PlannedSource
with_action a sources = keep (λ s. is_action a s.decision.action) sources

abbrev pub is_offline : SourceMode → Bool
is_offline offline = true
is_offline _ = false

abbrev pub is_nil {ℓ} : {A : Type ℓ} → List A → Bool
is_nil [] = true
is_nil (x ∷ xs) = false

abbrev pub final_state : ℕ → RunState
final_state code = if nat_eq code 0 then succeeded else dbt_failed

abbrev pub or_failure : Option DbtvError → DbtvError → DbtvError
or_failure none e = e
or_failure (some f) e = f

-- A call of the run that does not change it.
abbrev pub here {ℓ} : {A : Type ℓ} → Result A → Run → Result A × Run
here r run = (r, run)

module _ (around : Surroundings) (same : PlannedSource → PlannedSource → Bool) (services : Services)
    (stages : Stages) (duck : Duck) (config : DbtvConfig) (id root : String) (now : ℕ)
    (options : CommandOptions) (limits : Limits) where
  abbrev pub Known : Type 0
  Known = List (String × DatasetSnapshot)

  -- Planning.
  abbrev pub blocked : ExecutionPlan → Run → Result ExecutionPlan × Run
  blocked plan run =
      (require (not (any_of is_error plan.findings)) compatibility_error >> ok plan, run)

  unfoldable pub plan_run : Run → Result ExecutionPlan × Run
  unfolding transition state_text
  plan_run run =
      continue (here (stages.start >> stages.plan) run)
        (λ plan r. blocked plan (transition id planned r))

  -- The decisions on the sources, and what they rule out.
  abbrev pub with_files : Run → Result SourcePreparation × Db → Result SourcePreparation × Run
  with_files run (r, db) = (r, with_db db run)

  abbrev pub ruled_out : SourcePreparation → Run → Result SourcePreparation × Run
  ruled_out prep run = (
    require (is_nil (with_action SnapshotAction.missing prep.sources)) offline_violation
        >> require
            (not (is_offline options.source_mode)
              || is_nil (with_action SnapshotAction.refresh prep.sources))
            offline_violation
        >> ok prep,
    record run { reused = length (with_action SnapshotAction.reuse prep.sources) },
  )

  unfoldable pub prepare_run : ExecutionPlan → Run → Result SourcePreparation × Run
  unfolding transition state_text prepare_sources
  prepare_run plan run =
      continue (with_files run (prepare_sources around same config options now plan run.files.db))
        (λ prep r. ruled_out prep (transition id policy_approved r))

  -- The snapshots that are reused, pinned if the options say so.
  abbrev pub with_pinned : Run → Result DatasetSnapshot × Files → Result DatasetSnapshot × Run
  with_pinned run (r, files) = (r, record run { files = files })

  abbrev pub reuse_one :
      StoreSettings → String → DatasetSnapshot → Run → Result DatasetSnapshot × Run
  reuse_one store source s run =
      if options.keep_snapshot
      then with_pinned run (pin store (services.writer source) s run.files)
      else (ok s, run)

  unfoldable pub reuse_all : StoreSettings → List PlannedSource → Run → Result Known × Run
  unfolding pin
  reuse_all store [] run = (ok [], run)
  reuse_all store (s ∷ rest) run = elim s.decision.snapshot [
    | none ↦ reuse_all store rest run
    | some snapshot ↦ continue (reuse_one store (unique_id s) snapshot run) (λ kept r.
        continue (reuse_all store rest r) (λ known r'. (ok (insert (unique_id s) kept known), r')))
  ]

  abbrev pub counted : List PlannedSource → Known → Run → Result Known × Run
  counted captured known run = (ok known, record run { refreshed = length captured })

  -- The captures, if there is any.
  unfoldable pub capture : SourcePreparation → List PlannedSource → Known → Run → Result Known × Run
  unfolding refresh_all source_levels materialize_cohort
  capture prep [] known run = (ok known, run)
  capture prep (s ∷ rest) known run =
      continue
        (refresh_all services limits prep.store options.keep_snapshot
          (materialize_cohort around.show around.execute around.hash_cohort around.disk.join)
          (s ∷ rest) (source_levels same (s ∷ rest)) known run)
        (counted (s ∷ rest))

  -- `resolved[source]` for each source.
  unfoldable pub resolve : List PlannedSource → Known → Result (List DatasetSnapshot)
  resolve [] known = ok []
  resolve (s ∷ rest) known = elim (lookup (unique_id s) known) [
    | none ↦ err internal_error
    | some snapshot ↦ resolve rest known >>= λ later. ok (snapshot ∷ later)
  ]

  unfoldable pub ready_run : SourcePreparation → Run → Result (Known × List DatasetSnapshot) × Run
  unfolding transition state_text reuse_all capture resolve
  ready_run prep run =
      continue (reuse_all prep.store (with_action SnapshotAction.reuse prep.sources) run)
        (λ known r.
          continue (capture prep (with_action SnapshotAction.refresh prep.sources) known r)
            (λ resolved r'.
              continue (here (resolve prep.sources resolved) r')
                (λ snapshots r''. (ok (resolved, snapshots), transition id sources_ready r''))))

  -- `commit_dataset` of datasets.py, with the part of its payload that is read again.
  abbrev pub payload_of : ExecutionPlan → List DatasetSnapshot → Payload
  payload_of plan snapshots =
      let keys = map (λ (s : DatasetSnapshot). (s.source.unique_id, s.snapshot_key)) snapshots in
      let scopes =
        map (λ (s : DatasetSnapshot). (s.source.unique_id, s.connection_scope)) snapshots in
      record {
        format_version = 1;
        snapshots = keys;
        source_scopes = scopes;
        dataset_id = stages.hash_dataset keys scopes;
        created_by_run = id;
        project_fingerprint = plan.project_fingerprint;
      }

  abbrev pub is_faithful : DatasetSnapshot → Bool
  is_faithful s = not (
      any_of is_error
        (analyze_schema stages.search config.compatibility s.schema s.source.unique_id))

  abbrev pub committed_db : Run → Result Db → Result (Unit {0}) × Run
  committed_db run (err e) = (err e, run)
  committed_db run (ok db) = (ok tt, with_db db run)

  unfoldable pub publish_run : ExecutionPlan → List DatasetSnapshot → Run → Result (Unit {0}) × Run
  unfolding commit_dataset
  publish_run plan snapshots run =
      continue
        (here (require (all_of is_faithful snapshots) compatibility_error >> stages.ready) run)
        (λ _ r.
          let payload = payload_of plan snapshots in
          committed_db r (commit_dataset payload.dataset_id payload r.files.db))

  -- The bindings of the plan's sources.
  unfoldable pub bindings_of : List SourceMapping → Known → Result (List SourceBinding)
  bindings_of [] known = ok []
  bindings_of (m ∷ ms) known = elim (lookup m.source.unique_id known) [
    | none ↦ err internal_error
    | some snapshot ↦
        bindings_of ms known >>= λ later. ok (record { mapping = m; snapshot = snapshot } ∷ later)
  ]

  unfoldable pub record_all : List SourceBinding → Db → Db
  record_all [] db = db
  record_all (b ∷ bs) db = record_all bs (record_binding id b db)

  abbrev pub bound_report : List SourceBinding → Result BindingReport
  bound_report bindings =
      let (made, log) = bind duck bindings in made >>= λ report. verify duck report bindings log

  abbrev pub all_there : BindingReport → Result (Unit {0})
  all_there report = stages.prerequisites report >>= λ there.
      require (all_of (λ (b : Bool). b) there) compatibility_error

  unfoldable pub bind_run : ExecutionPlan → Known → Run → Result (Unit {0}) × Run
  unfolding transition state_text bindings_of record_all bind verify
  bind_run plan known run =
      continue (here (bindings_of plan.source_mappings known) run) (λ bindings r.
        continue (here (bound_report bindings) r) (λ report r'.
          let recorded = with_db (record_all bindings r'.files.db) r' in
          continue (here (all_there report) recorded) (λ _ r''. (ok tt, transition id bound r''))))

  -- dbt, whose return code decides on the exit code.
  abbrev pub captured_outputs : ℕ → Result ℕ
  captured_outputs code =
      if options.capture_results && nat_eq code 0
      then (stages.capture_outputs >> ok code)
      else ok code

  unfoldable pub dbt_run : Run → Result ℕ × Run
  unfolding transition state_text
  dbt_run run =
      continue
        (here
          (stages.run_dbt >>= λ code.
            stages.load_results >> captured_outputs (if nat_eq code 0 then 0 else 1))
          run)
        (λ code r. (ok code, transition id dbt_completed r))

  abbrev pub local_run : ExecutionPlan → Known → Run → Result ℕ × Run
  local_run plan known run =
      if options.command == "sync"
      then (ok 0, run)
      else continue (bind_run plan known run) (λ _. dbt_run)

  -- The body of the `try` block, up to the summary: the exit code of the run.
  unfoldable pub run_body : Run → Result ℕ × Run
  unfolding plan_run prepare_run ready_run publish_run bind_run dbt_run
  run_body run = continue (plan_run run) (λ plan r1. continue (prepare_run plan r1) (λ prep r2.
      continue (ready_run prep r2) (λ resolved r3.
        continue (publish_run plan resolved.1 r3) (λ _ r4.
          continue (local_run plan resolved.0 r4) (λ code r5. here (stages.done >> ok code) r5)))))

  -- The state and the exit code that the index is given at the end.
  abbrev pub closed : RunState → ℕ → Run → Run
  closed state code run = record run {
    files = record run.files {
      db =
          finish_run id (state_text state) stages.completed_at run.remote_queries code run.files.db;
    };
    transitions = state ∷ run.transitions;
  }

  -- The handler of errors, which may raise another one once the index has been given the end.
  abbrev pub handle : DbtvError → Run → Result ℕ × Run
  handle e run =
      let raised = or_failure stages.failure e in
      (stages.failure_reported >> err raised, closed failed (exit_code raised) run)

  -- The event of the end is emitted in the `try` block: its error is handled as well.
  abbrev pub announce : ℕ → Run → Result (Unit {0}) → Result ℕ × Run
  announce code run (err e) = handle e run
  announce code run (ok u) = (ok code, run)

  -- The end of the `try` block and its handler.
  abbrev pub settle_result : Result ℕ × Run → Result ℕ × Run
  settle_result (ok code, run) =
      announce code (closed (final_state code) code run) stages.completed_event
  settle_result (err e, run) = handle e run

  -- The `finally` block, whose error replaces the result.
  abbrev pub close : Result ℕ × Run → Result ℕ × Run
  close m = let (result, run) = settle_result m in (stages.resources_written >> result, run)

  abbrev pub started : Files → Run
  started files = record {
    files = record files {
      db = start_run id options.command (state_text planning) stages.started_at root files.db;
    };
    budget = record { rows = []; extracted_bytes = 0 };
    remote_attempted = false;
    remote_queries = 0;
    reused = 0;
    refreshed = 0;
    transitions = planning ∷ [];
  }

  unfoldable pub run_limited : Files → Result ℕ × Run
  unfolding run_body start_run finish_run state_text exit_code
  run_limited files = close (run_body (started files))

-- The limits of the budget, which are computed outside of the `try` block.
abbrev pub read_limits : DbtvConfig → CommandOptions → Result Limits
read_limits config options = elim options.max_bytes [
  | none ↦ ok (limits_of config.policy options.max_rows none)
  | some bytes ↦ bytes >>= λ n. ok (limits_of config.policy options.max_rows (some n))
]

module _ (around : Surroundings) (same : PlannedSource → PlannedSource → Bool) (services : Services)
    (stages : Stages) (duck : Duck) (config : DbtvConfig) (id root : String) (now : ℕ)
    (options : CommandOptions) where
  abbrev pub start_files : Files → Files
  start_files files = record files {
    db = start_run id options.command "PLANNING" stages.started_at root files.db;
  }

  abbrev pub run_with : Files → Result Limits → Result ℕ × Files
  run_with files (err e) = (err e, start_files files)
  run_with files (ok limits) =
      let (result, run) =
        run_limited around same services stages duck config id root now options limits files in
      (result, run.files)

  -- `_execute`: its result, and the files and the index that it leaves.
  unfoldable pub execute : Files → Result ℕ × Files
  unfolding run_limited limits_of
  execute files =
      if options.capture_results && not (is_run_or_build options.command)
      then (err policy_error, files)
      else run_with files (read_limits config options)
