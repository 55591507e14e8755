-- ===== src/Orchestration/Bindings.antt =====
-- The stages in which a run publishes its dataset, binds its sources and runs dbt.
use dbtv.Common.{ℕ, String, ◌≡◌, refl, Bool, true, List, if◌then◌else◌, nat_eq, all_of}
use dbtv.Errors.{Result, ok, err, require, compatibility_error, ◌>>=◌, ◌>>◌}
use dbtv.Errors.Calls.{continue, continue-Ends}
use dbtv.Models.{DatasetSnapshot, SourceBinding}
use dbtv.Models.Runs.{ExecutionPlan, BindingReport}
use dbtv.Config.Whole.{DbtvConfig}
use dbtv.Budget.{Limits}
use dbtv.State.{Db, Payload, commit_dataset}
use dbtv.Backend.Bind.{Duck}
use dbtv.Sources.{PlannedSource}
use dbtv.Sources.Options.{CommandOptions}
use dbtv.Sources.Prepare.{Surroundings}
use dbtv.Orchestration.Run.{
  RunState, sources_ready, bound, dbt_completed, failed, Run, with_db, transition,
}
use dbtv.Orchestration.Capture.{Services}
use dbtv.Orchestration.Execute.{
  Stages, here, committed_db, publish_run, bindings_of, record_all, bound_report, all_there,
  bind_run, captured_outputs, dbt_run, payload_of, is_faithful,
}
use dbtv.Orchestration.Traces.{IsAt, IsOpen, Stage, transition-IsAt, edge}
use dbtv.Orchestration.Stages.{open_at, here-Stage, with_db-IsAt}

module _ (around : Surroundings) (same : PlannedSource → PlannedSource → Bool) (services : Services)
    (stages : Stages) (duck : Duck) (config : DbtvConfig) (id root : String) (now : ℕ)
    (options : CommandOptions) (limits : Limits) (is_local : Bool) where
  abbrev opened :
      (s : RunState) (run : Run) → edge s failed ≡ true → IsAt is_local s run → IsOpen is_local run
  opened = open_at around same services stages duck config id root now options limits is_local

  abbrev At : RunState → {A : Type 0} → A → Run → Type 0
  At s _ r = IsAt is_local s r

  -- A call that does not change the run, in a state that may fail.
  stay :
      {A : Type 0} (s : RunState) (r : Result A) (run : Run)
      → edge s failed ≡ true
      → IsAt is_local s run
      → Stage is_local s (here r run)
  stay = here-Stage around same services stages duck config id root now options limits is_local

  filed :
      (s : RunState) (db : Db) (run : Run) → IsAt is_local s run → IsAt is_local s (with_db db run)
  filed = with_db-IsAt around same services stages duck config id root now options limits is_local

  pub publish_run-Stage :
      (plan : ExecutionPlan) (snapshots : List DatasetSnapshot) (run : Run)
      → IsAt is_local sources_ready run
      → Stage is_local sources_ready (
          publish_run around same services stages duck config id root now options limits plan
            snapshots run)
  unfolding publish_run
  publish_run-Stage plan snapshots run a =
      continue-Ends (At sources_ready) (At sources_ready) (IsOpen is_local) (here ready run) _
        (stay sources_ready ready run refl a)
        (λ _ r b. after r b (commit_dataset payload.dataset_id payload r.files.db))
    where
      payload : Payload
      payload =
          payload_of around same services stages duck config id root now options limits plan
            snapshots

      ready : Result (Unit {0})
      ready =
          require
            (all_of (is_faithful around same services stages duck config id root now options limits)
              snapshots)
            compatibility_error
          >> stages.ready

      after :
          (r : Run)
          → IsAt is_local sources_ready r
          → (d : Result Db)
          → Stage is_local sources_ready
              (committed_db around same services stages duck config id root now options limits r d)
      after r b (err e) = opened sources_ready r refl b
      after r b (ok db) = filed sources_ready db r b

  -- The rest of a stage after such a call.
  pub after_call :
      {A B : Type 0} (s t : RunState) (r : Result A) (run : Run) (next : A → Run → Result B × Run)
      → edge s failed ≡ true
      → IsAt is_local s run
      → ((x : A) → Stage is_local t (next x run))
      → Stage is_local t (continue (here r run) next)
  after_call s t (err e) run next l a k = opened s run l a
  after_call s t (ok x) run next l a k = k x

  pub bind_run-Stage :
      (plan : ExecutionPlan) (known : List (String × DatasetSnapshot)) (run : Run)
      → IsAt is_local sources_ready run
      → Stage is_local bound (
          bind_run around same services stages duck config id root now options limits plan known
            run)
  unfolding bind_run
  bind_run-Stage plan known run a =
      after_call sources_ready bound
        (bindings_of around same services stages duck config id root now options limits
          plan.source_mappings known)
        run bound_next refl a
        (λ bindings.
          after_call sources_ready bound
            (bound_report around same services stages duck config id root now options limits
              bindings)
            run (report_next bindings) refl a
            (λ report.
              after_call sources_ready bound
                (all_there around same services stages duck config id root now options limits
                  report)
                (recorded bindings) there_next refl (filed sources_ready _ run a)
                (λ _.
                  transition-IsAt is_local id sources_ready bound (recorded bindings) refl
                    (filed sources_ready _ run a))))
    where
      recorded : List SourceBinding → Run
      recorded bindings =
          with_db
            (record_all around same services stages duck config id root now options limits bindings
              run.files.db)
            run

      there_next : Unit {0} → Run → Result (Unit {0}) × Run
      there_next _ r = (ok tt, transition id bound r)

      report_next : List SourceBinding → BindingReport → Run → Result (Unit {0}) × Run
      report_next bindings report r =
          let recorded =
            with_db
              (record_all around same services stages duck config id root now options limits
                bindings r.files.db)
              r in
          continue
            (here
              (all_there around same services stages duck config id root now options limits report)
              recorded)
            there_next

      bound_next : List SourceBinding → Run → Result (Unit {0}) × Run
      bound_next bindings r =
          continue
            (here
              (bound_report around same services stages duck config id root now options limits
                bindings)
              r)
            (report_next bindings)

  pub dbt_run-Stage :
      (run : Run)
      → IsAt is_local bound run
      → Stage is_local dbt_completed
          (dbt_run around same services stages duck config id root now options limits run)
  unfolding dbt_run
  dbt_run-Stage run a =
      after_call bound dbt_completed
        (stages.run_dbt >>= λ code.
          stages.load_results
          >> captured_outputs around same services stages duck config id root now options limits
              (if nat_eq code 0 then 0 else 1))
        run (λ code r. (ok code, transition id dbt_completed r)) refl a
        (λ code. transition-IsAt is_local id bound dbt_completed run refl a)
