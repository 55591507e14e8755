-- ===== src/Orchestration/Recorded.antt =====
-- The run keeps its one row in the index through all its stages.
use dbtv.Common.{
  ℕ, String, ◌≡◌, refl, ap, ◌∙◌, Bool, ◌==◌, List, [], ◌∷◌, map, keep, inl, inr, Bool-cases,
  Option-cases, arith, if◌then◌else◌, all_of, nat_eq,
}
use dbtv.Errors.{Result, ok, err, ◌>>=◌, ◌>>◌, require, compatibility_error}
use dbtv.Errors.Calls.{continue, continue-state}
use dbtv.Models.{DatasetSnapshot, SnapshotAction, SourceBinding}
use dbtv.Models.Runs.{ExecutionPlan}
use dbtv.Config.Whole.{DbtvConfig}
use dbtv.State.{
  RunRow, Db, is_run, moved, finished, update_run_state, record_binding, commit_dataset,
}
use dbtv.State.Untouched.{commit_dataset-runs}
use dbtv.Budget.{Limits}
use dbtv.Backend.Bind.{Duck}
use dbtv.Store.{StoreSettings}
use dbtv.Store.Write.{Files, pin}
use dbtv.Store.Untouched.{pin-runs}
use dbtv.Sources.{PlannedSource, unique_id, source_levels}
use dbtv.Sources.Options.{CommandOptions}
use dbtv.Sources.Prepare.{Surroundings}
use dbtv.Sources.Cohorts.{materialize_cohort}
use dbtv.Sources.Preparation.{SourcePreparation, prepare_sources}
use dbtv.Sources.Untouched.{prepare_sources-runs}
use dbtv.Orchestration.Run.{
  RunState, planned, policy_approved, sources_ready, bound, dbt_completed, state_text, Run, with_db,
  transition,
}
use dbtv.Orchestration.Capture.{Services, refresh_all}
use dbtv.Orchestration.Captured.{refresh_all-runs}
use dbtv.Orchestration.Execute.{
  Stages, here, plan_run, with_files, prepare_run, with_action, with_pinned, reuse_one, reuse_all,
  counted, capture, resolve, ready_run, payload_of, is_faithful, committed_db, publish_run,
  bindings_of, record_all, bound_report, all_there, bind_run, captured_outputs, dbt_run, local_run,
  run_body,
}

keep-map :
    (id : String) (f : RunRow → RunRow) (rows : List RunRow)
    → ((r : RunRow) → is_run id (f r) ≡ is_run id r)
    → keep (is_run id) (map f rows) ≡ map f (keep (is_run id) rows)
unfolding keep
keep-map id f [] h = refl
keep-map id f (r ∷ rows) h = elim (Bool-cases (is_run id r)) [
  | inl e ↦ rw (h r, e, keep-map id f rows h) refl
  | inr e ↦ rw (h r, e, keep-map id f rows h) refl
]

-- The index has one row for the run.
pub record IsRecorded (id : String) (run : Run) : Type 0 where
  pub row : RunRow
  pub only : keep (is_run id) run.files.db.runs ≡ row ∷ []

pub map-IsRecorded :
    (id : String) (f : RunRow → RunRow) (run run' : Run)
    → ((r : RunRow) → is_run id (f r) ≡ is_run id r)
    → run'.files.db.runs ≡ map f run.files.db.runs
    → (h : IsRecorded id run) → keep (is_run id) run'.files.db.runs ≡ f h.row ∷ []
map-IsRecorded id f run run' g e h =
    ap (keep (is_run id)) e ∙ keep-map id f run.files.db.runs g ∙ ap (map f) h.only

moved-is_run : (id state : String) (r : RunRow) → is_run id (moved id state r) ≡ is_run id r
moved-is_run id state r = ground arith

pub finished-is_run :
    (id state : String) (at queries code : ℕ) (r : RunRow)
    → is_run id (finished id state at queries code r) ≡ is_run id r
finished-is_run id state at queries code r = ground arith

module _ (around : Surroundings) (same : PlannedSource → PlannedSource → Bool) (services : Services)
    (stages : Stages) (duck : Duck) (config : DbtvConfig) (id root : String) (now : ℕ)
    (options : CommandOptions) (limits : Limits) where
  abbrev R : Run → Type 0
  R run = IsRecorded id run

  -- A change of the run that leaves the table of runs alone.
  kept : (run run' : Run) → run'.files.db.runs ≡ run.files.db.runs → R run → R run'
  kept run run' e h = record { row = h.row; only = ap (keep (is_run id)) e ∙ h.only }

  transition-R : (state : RunState) (run : Run) → R run → R (transition id state run)
  unfolding transition update_run_state
  transition-R state run h = record {
    row = moved id (state_text state) h.row;
    only =
        map-IsRecorded id (moved id (state_text state)) run (transition id state run)
          (moved-is_run id (state_text state)) refl h;
  }

  with_files-R :
      (run : Run) (m : Result SourcePreparation × Db)
      → m.1.runs ≡ run.files.db.runs
      → R run
      → R (with_files around same services stages duck config id root now options limits run m).1
  with_files-R run (r, db) e h = kept run (with_db db run) e h

  prepare_run-R :
      (plan : ExecutionPlan) (run : Run)
      → R run
      → R
          (prepare_run around same services stages duck config id root now options limits plan
            run).1
  unfolding prepare_run
  prepare_run-R plan run h =
      continue-state R
        (with_files around same services stages duck config id root now options limits run
          (prepare_sources around same config options now plan run.files.db))
        _
        (with_files-R run (prepare_sources around same config options now plan run.files.db)
          (prepare_sources-runs around same config options now plan run.files.db) h)
        (λ prep r k.
          kept (transition id policy_approved r) _ refl (transition-R policy_approved r k))

  with_pinned-R :
      (run : Run) (m : Result DatasetSnapshot × Files)
      → m.1.db.runs ≡ run.files.db.runs
      → R run
      → R (with_pinned around same services stages duck config id root now options limits run m).1
  with_pinned-R run (r, files) e h = kept run (record run { files = files }) e h

  reuse_one-R :
      (store : StoreSettings) (source : String) (s : DatasetSnapshot) (run : Run)
      → R run
      → R
          (reuse_one around same services stages duck config id root now options limits store source
            s run).1
  reuse_one-R store source s run h = elim (Bool-cases options.keep_snapshot) [
    | inl e ↦ rw e (
        with_pinned-R run (pin store (services.writer source) s run.files)
          (pin-runs store (services.writer source) s run.files) h)
    | inr e ↦ rw e h
  ]

  reuse_all-R :
      (store : StoreSettings) (sources : List PlannedSource) (run : Run)
      → R run
      → R
          (reuse_all around same services stages duck config id root now options limits store
            sources run).1
  unfolding reuse_all
  reuse_all-R store [] run h = h
  reuse_all-R store (s ∷ rest) run h = elim (Option-cases s.decision.snapshot) [
    | inl e ↦ rw (reuse_all, e) (reuse_all-R store rest run h)
    | inr (snapshot, e) ↦
        rw (reuse_all, e)
          (continue-state R
            (reuse_one around same services stages duck config id root now options limits store
              (unique_id s) snapshot run)
            _ (reuse_one-R store (unique_id s) snapshot run h)
            (λ kept r k.
              continue-state R
                (reuse_all around same services stages duck config id root now options limits store
                  rest r)
                _ (reuse_all-R store rest r k) (λ known r' k'. k')))
  ]

  capture-R :
      (prep : SourcePreparation) (sources : List PlannedSource)
      (known : List (String × DatasetSnapshot)) (run : Run)
      → R run
      → R
          (capture around same services stages duck config id root now options limits prep sources
            known run).1
  unfolding capture
  capture-R prep [] known run h = h
  capture-R prep (s ∷ rest) known run h =
      let make =
        materialize_cohort around.show around.execute around.hash_cohort around.disk.join in
      let all =
        refresh_all services limits prep.store options.keep_snapshot make (s ∷ rest)
          (source_levels same (s ∷ rest)) known run in
      continue-state R all
        (counted around same services stages duck config id root now options limits (s ∷ rest))
        (kept run all.1
          (refresh_all-runs services limits prep.store options.keep_snapshot run.files.db.runs make
            (s ∷ rest) (source_levels same (s ∷ rest)) known run refl)
          h)
        (λ resolved r k. kept r _ refl k)

  -- A call that does not change the run, and the rest of its stage.
  after :
      {A B : Type 0} (r : Result A) (run : Run) (next : A → Run → Result B × Run)
      → R run
      → ((a : A) → R (next a run).1)
      → R (continue (here r run) next).1
  after (err e) run next h k = h
  after (ok a) run next h k = k a

  ready_run-R :
      (prep : SourcePreparation) (run : Run)
      → R run
      → R (ready_run around same services stages duck config id root now options limits prep run).1
  unfolding ready_run
  ready_run-R prep run h =
      let reused = with_action SnapshotAction.reuse prep.sources in
      let refreshed = with_action SnapshotAction.refresh prep.sources in
      continue-state R
        (reuse_all around same services stages duck config id root now options limits prep.store
          reused run)
        _ (reuse_all-R prep.store reused run h)
        (λ known r k.
          continue-state R
            (capture around same services stages duck config id root now options limits prep
              refreshed known r)
            _ (capture-R prep refreshed known r k)
            (λ resolved r' k'.
              after
                (resolve around same services stages duck config id root now options limits
                  prep.sources resolved)
                r' _ k' (λ snapshots. transition-R sources_ready r' k')))

  committed_db-R :
      (run : Run) (r : Result Db)
      → ((db : Db) → r ≡ ok db → db.runs ≡ run.files.db.runs)
      → R run
      → R (committed_db around same services stages duck config id root now options limits run r).1
  committed_db-R run (err e) g h = h
  committed_db-R run (ok db) g h = kept run (with_db db run) (g db refl) h

  publish_run-R :
      (plan : ExecutionPlan) (snapshots : List DatasetSnapshot) (run : Run)
      → R run
      → R
          (publish_run around same services stages duck config id root now options limits plan
            snapshots run).1
  unfolding publish_run
  publish_run-R plan snapshots run h =
      let payload =
        payload_of around same services stages duck config id root now options limits plan
          snapshots in
      after
        (require
            (all_of (is_faithful around same services stages duck config id root now options limits)
              snapshots)
            compatibility_error
          >> stages.ready)
        run _ h
        (λ _.
          committed_db-R run (commit_dataset payload.dataset_id payload run.files.db)
            (λ db e. commit_dataset-runs payload.dataset_id payload run.files.db e) h)

  record_all-runs :
      (bindings : List SourceBinding) (db : Db)
      → (record_all around same services stages duck config id root now options limits bindings
          db).runs
        ≡ db.runs
  unfolding record_all record_binding
  record_all-runs [] db = refl
  record_all-runs (b ∷ bs) db = record_all-runs bs (record_binding id b db)

  bind_run-R :
      (plan : ExecutionPlan) (known : List (String × DatasetSnapshot)) (run : Run)
      → R run
      → R
          (bind_run around same services stages duck config id root now options limits plan known
            run).1
  unfolding bind_run
  bind_run-R plan known run h =
      after
        (bindings_of around same services stages duck config id root now options limits
          plan.source_mappings known)
        run _ h
        (λ bindings.
          after
            (bound_report around same services stages duck config id root now options limits
              bindings)
            run _ h
            (λ report.
              let recorded =
                with_db
                  (record_all around same services stages duck config id root now options limits
                    bindings run.files.db)
                  run in
              let k = kept run recorded (record_all-runs bindings run.files.db) h in
              after
                (all_there around same services stages duck config id root now options limits
                  report)
                recorded _ k (λ _. transition-R bound recorded k)))

  dbt_run-R :
      (run : Run)
      → R run
      → R (dbt_run around same services stages duck config id root now options limits run).1
  unfolding dbt_run
  dbt_run-R run h =
      after
        (stages.run_dbt >>= λ code.
          stages.load_results
          >> captured_outputs around same services stages duck config id root now options limits
              (if nat_eq code 0 then 0 else 1))
        run (λ code r. (ok code, transition id dbt_completed r)) h
        (λ code. transition-R dbt_completed run h)

  local_run-R :
      (plan : ExecutionPlan) (known : List (String × DatasetSnapshot)) (run : Run)
      → R run
      → R
          (local_run around same services stages duck config id root now options limits plan known
            run).1
  local_run-R plan known run h = elim (Bool-cases (options.command == "sync")) [
    | inl e ↦ rw e h
    | inr e ↦ rw e (
        continue-state R
          (bind_run around same services stages duck config id root now options limits plan known
            run)
          _ (bind_run-R plan known run h) (λ _. dbt_run-R))
  ]

  pub run_body-IsRecorded :
      (run : Run)
      → R run
      → R (run_body around same services stages duck config id root now options limits run).1
  unfolding run_body plan_run
  run_body-IsRecorded run h =
      continue-state R
        (plan_run around same services stages duck config id root now options limits run) _
        (after (stages.start >> stages.plan) run _ h (λ plan. transition-R planned run h))
        (λ plan r1 h1.
          continue-state R
            (prepare_run around same services stages duck config id root now options limits plan r1)
            _ (prepare_run-R plan r1 h1)
            (λ prep r2 h2.
              continue-state R
                (ready_run around same services stages duck config id root now options limits prep
                  r2)
                _ (ready_run-R prep r2 h2)
                (λ resolved r3 h3.
                  continue-state R
                    (publish_run around same services stages duck config id root now options limits
                      plan resolved.1 r3)
                    _ (publish_run-R plan resolved.1 r3 h3)
                    (λ _ r4 h4.
                      continue-state R
                        (local_run around same services stages duck config id root now options
                          limits plan resolved.0 r4)
                        _ (local_run-R plan resolved.0 r4 h4) (λ code r5 h5. h5)))))
