-- ===== src/Orchestration/Stages.antt =====
-- Each stage of a run moves along the edges of its states, and leaves the remote side alone if the mode
-- is local.
use dbtv.Common.{
  ℕ, String, ◌≡◌, ◌≢◌, refl, Bool, true, false, not, ◌&&◌, ◌||◌, List, [], All, keep-none, All-imp,
  length,
}
use dbtv.Errors.{Result, ok, err, offline_violation, require, ◌>>◌}
use dbtv.Errors.Calls.{Ends, continue-Ends}
use dbtv.Models.{SnapshotAction}
use dbtv.Models.Runs.{ExecutionPlan}
use dbtv.Config.Whole.{DbtvConfig}
use dbtv.Budget.{Limits}
use dbtv.State.{Db}
use dbtv.Backend.Bind.{Duck}
use dbtv.Store.{is_local_mode}
use dbtv.Sources.{PlannedSource}
use dbtv.Sources.Options.{CommandOptions}
use dbtv.Sources.Prepare.{Surroundings}
use dbtv.Sources.Preparation.{SourcePreparation, prepare_sources}
use dbtv.Sources.Checked.{effective_mode}
use dbtv.Sources.Promises.{prepare_sources-local_mode}
use dbtv.Orchestration.Run.{
  RunState, planning, planned, policy_approved, failed, Run, with_db, transition,
}
use dbtv.Orchestration.Capture.{Services}
use dbtv.Orchestration.Execute.{
  Stages, here, plan_run, with_files, ruled_out, prepare_run, is_action, is_offline, with_action,
  is_nil,
}
use dbtv.Orchestration.Traces.{IsAt, IsOpen, Stage, transition-IsAt, edge}

not-refresh :
    (a : SnapshotAction) → a ≢ SnapshotAction.refresh → is_action SnapshotAction.refresh a ≡ false
not-refresh SnapshotAction.reuse h = refl
not-refresh SnapshotAction.refresh h = absurd (h refl)
not-refresh SnapshotAction.missing h = refl

no_refresh :
    (sources : List PlannedSource)
    → All (λ (s : PlannedSource). s.decision.action ≢ SnapshotAction.refresh) sources
    → with_action SnapshotAction.refresh sources ≡ []
no_refresh sources h =
    keep-none (λ (s : PlannedSource). is_action SnapshotAction.refresh s.decision.action) sources
      (All-imp (λ (s : PlannedSource). s.decision.action ≢ SnapshotAction.refresh) _
        (λ s. not-refresh s.decision.action) sources h)

module _ (around : Surroundings) (same : PlannedSource → PlannedSource → Bool) (services : Services)
    (stages : Stages) (duck : Duck) (config : DbtvConfig) (id root : String) (now : ℕ)
    (options : CommandOptions) (limits : Limits) (is_local : Bool) where
  pub open_at :
      (s : RunState) (run : Run) → edge s failed ≡ true → IsAt is_local s run → IsOpen is_local run
  open_at s run e a = record { state = s; live = e; at = a }

  pub here-Stage :
      {A : Type 0} (s : RunState) (r : Result A) (run : Run)
      → edge s failed ≡ true
      → IsAt is_local s run
      → Stage is_local s (here r run)
  here-Stage s (err e) run l a = open_at s run l a
  here-Stage s (ok x) run l a = a

  -- A run whose files have changed.
  pub with_db-IsAt :
      (s : RunState) (db : Db) (run : Run) → IsAt is_local s run → IsAt is_local s (with_db db run)
  with_db-IsAt s db run a = record {
    path = a.path;
    head = a.head;
    attempted = a.attempted;
    queries = a.queries;
  }

  pub plan_run-Stage :
      (run : Run)
      → IsAt is_local planning run
      → Stage is_local planned
          (plan_run around same services stages duck config id root now options limits run)
  unfolding plan_run
  plan_run-Stage run a =
      continue-Ends (λ _ r. IsAt is_local planning r) (λ _ r. IsAt is_local planned r)
        (IsOpen is_local) (here (stages.start >> stages.plan) run) _
        (here-Stage planning (stages.start >> stages.plan) run refl a)
        (λ plan r b.
          here-Stage planned _ (transition id planned r) refl
            (transition-IsAt is_local id planning planned r refl b))

  -- The sources of a preparation in a local mode.
  abbrev pub IsQuiet : SourcePreparation → Type 0
  IsQuiet prep =
      (is_local && not (is_nil (with_action SnapshotAction.refresh prep.sources))) ≡ false

  quiet :
      (b : Bool) (db : Db) (plan : ExecutionPlan) (prep : SourcePreparation) (db' : Db)
      → is_local_mode (effective_mode options) ≡ b
      → prepare_sources around same config options now plan db ≡ (ok prep, db')
      → (b && not (is_nil (with_action SnapshotAction.refresh prep.sources))) ≡ false
  quiet false db plan prep db' l h = refl
  quiet true db plan prep db' l h =
      rw
        (no_refresh prep.sources
          (prepare_sources-local_mode around same config options now plan db prep db' l h))
        refl

  ruled_out-Ends :
      (prep : SourcePreparation) (run : Run)
      → IsQuiet prep
      → IsAt is_local policy_approved run
      → Ends
          (λ p r. IsAt is_local policy_approved r × IsQuiet p)
          (IsOpen is_local)
          (ruled_out around same services stages duck config id root now options limits prep run)
  ruled_out-Ends prep run q a = check (is_nil (with_action SnapshotAction.missing prep.sources)) (
      not (is_offline options.source_mode)
      || is_nil (with_action SnapshotAction.refresh prep.sources))
    where
      counted_run : Run
      counted_run = record run { reused = length (with_action SnapshotAction.reuse prep.sources) }

      at : IsAt is_local policy_approved counted_run
      at = record { path = a.path; head = a.head; attempted = a.attempted; queries = a.queries }

      check :
          (b c : Bool)
          → Ends
              (λ p r. IsAt is_local policy_approved r × IsQuiet p)
              (IsOpen is_local)
              (require b offline_violation >> require c offline_violation >> ok prep, counted_run)
      check false c = open_at policy_approved counted_run refl at
      check true false = open_at policy_approved counted_run refl at
      check true true = (at, q)

  pub prepare_run-Ends :
      (plan : ExecutionPlan) (run : Run)
      → is_local_mode (effective_mode options) ≡ is_local
      → IsAt is_local planned run
      → Ends
          (λ prep r. IsAt is_local policy_approved r × IsQuiet prep)
          (IsOpen is_local)
          (prepare_run around same services stages duck config id root now options limits plan run)
  unfolding prepare_run
  prepare_run-Ends plan run l a =
      continue-Ends (λ prep r. IsAt is_local planned r × IsQuiet prep)
        (λ prep r. IsAt is_local policy_approved r × IsQuiet prep) (IsOpen is_local)
        (with_files around same services stages duck config id root now options limits run
          (prepare_sources around same config options now plan run.files.db))
        _ (filed (prepare_sources around same config options now plan run.files.db) refl)
        (λ prep r b.
          ruled_out-Ends prep (transition id policy_approved r) b.1
            (transition-IsAt is_local id planned policy_approved r refl b.0))
    where
      filed :
          (m : Result SourcePreparation × Db)
          → prepare_sources around same config options now plan run.files.db ≡ m
          → Ends
              (λ prep r. IsAt is_local planned r × IsQuiet prep)
              (IsOpen is_local)
              (with_files around same services stages duck config id root now options limits run m)
      filed (err e, db) h = open_at planned (with_db db run) refl (with_db-IsAt planned db run a)
      filed (ok prep, db) h =
          (with_db-IsAt planned db run a, quiet is_local run.files.db plan prep db l h)
