-- ===== src/Orchestration/Finished.antt =====
-- What the index says of a run when `_execute` has ended.
use dbtv.Common.{
  ℕ, String, ◌≡◌, refl, Bool, false, not, ◌&&◌, List, [], ◌∷◌, ◌++◌, none, some, keep, inl, inr,
  ◌⊎◌, true, subst, Bool-cases, arith, eq_refl,
}
use dbtv.Errors.{DbtvError, Result, ok, err, exit_code, ◌>>◌}
use dbtv.State.{RunRow, start_run, finish_run, is_run, finished}
use dbtv.Budget.{Limits}
use dbtv.Config.Whole.{DbtvConfig}
use dbtv.Backend.Bind.{Duck}
use dbtv.Store.Write.{Files}
use dbtv.Sources.{PlannedSource}
use dbtv.Sources.Options.{CommandOptions}
use dbtv.Sources.Prepare.{Surroundings}
use dbtv.Orchestration.Run.{RunState, failed, state_text, Run, is_run_or_build}
use dbtv.Orchestration.Recorded.{IsRecorded, map-IsRecorded, finished-is_run, run_body-IsRecorded}
use dbtv.Orchestration.Capture.{Services}
use dbtv.Orchestration.Execute.{
  Stages, final_state, or_failure, closed, handle, announce, settle_result, run_body, started,
  run_limited, read_limits, execute,
}

-- The rows of the run have ended in the given state with the given exit code.
pub record HasEnded (at code : ℕ) (state : String) (r : RunRow) : Type 0 where
  pub state_is : r.state ≡ state
  pub ended : r.completed_at ≡ some at
  pub exit : r.exit_code ≡ some code

-- The error is that of the handler, or the handler's report or the last file has raised it.
abbrev pub IsRaised : Stages → DbtvError → DbtvError → Type 0
IsRaised stages raised e =
    (raised ≡ e) ⊎ ((stages.failure_reported ≡ err e) ⊎ (stages.resources_written ≡ err e))

-- What a result says of the row of the run.
abbrev pub EndedWith : Stages → Result ℕ → RunRow → Type 0
EndedWith stages (ok code) r = HasEnded stages.completed_at code (state_text (final_state code)) r
EndedWith stages (err e) r =
    ((raised : DbtvError) × HasEnded stages.completed_at (exit_code raised) "FAILED" r
      × IsRaised stages raised e)
    ⊎ ((stages.resources_written ≡ err e)
        × ((code : ℕ) × HasEnded stages.completed_at code (state_text (final_state code)) r))

-- The run has one row in the index, and it has ended.
pub record HasRow (stages : Stages) (id : String) (result : Result ℕ) (runs : List RunRow)
    : Type 0 where
  pub row : RunRow
  pub only : keep (is_run id) runs ≡ row ∷ []
  pub ends : EndedWith stages result row

cons-head : {x y : RunRow} {xs ys : List RunRow} → x ∷ xs ≡ y ∷ ys → x ≡ y
cons-head h = cc

keep-head :
    (id : String) (rows : List RunRow) (r : RunRow)
    → keep (is_run id) rows ≡ r ∷ []
    → is_run id r ≡ true
unfolding keep
keep-head id [] r h = cc
keep-head id (x ∷ xs) r h = elim (Bool-cases (is_run id x)) [
  | inl e ↦ subst (λ y. is_run id y ≡ true) (cons-head (rw e at h)) e
  | inr e ↦ keep-head id xs r (rw e at h)
]

ended-row :
    (id state : String) (at queries code : ℕ) (r : RunRow)
    → is_run id r ≡ true
    → HasEnded at code state (finished id state at queries code r)
ended-row id state at queries code r e =
    rw e (record { state_is = refl; ended = refl; exit = refl })

module _ (around : Surroundings) (same : PlannedSource → PlannedSource → Bool) (services : Services)
    (stages : Stages) (duck : Duck) (config : DbtvConfig) (id root : String) (now : ℕ)
    (options : CommandOptions) where
  module _ (limits : Limits) where
    -- The row of a run that has been closed in a state.
    record ClosedIn (state : RunState) (code : ℕ) (run : Run) : Type 0 where
      row : RunRow
      only : keep (is_run id) run.files.db.runs ≡ row ∷ []
      ends : HasEnded stages.completed_at code (state_text state) row

    closed-ClosedIn :
        (state : RunState) (code : ℕ) (run : Run)
        → IsRecorded id run
        → ClosedIn state code (
            closed around same services stages duck config id root now options limits state code
              run)
    unfolding finish_run
    closed-ClosedIn state code run h =
        let text = state_text state in
        let end = finished id text stages.completed_at run.remote_queries code in
        record {
          row = end h.row;
          only =
              map-IsRecorded id end run
                (closed around same services stages duck config id root now options limits state
                  code run)
                (finished-is_run id text stages.completed_at run.remote_queries code) refl h;
          ends =
              ended-row id text stages.completed_at run.remote_queries code h.row
                (keep-head id run.files.db.runs h.row h.only);
        }

    -- Before the `finally` block.
    abbrev Concluded : Result ℕ × Run → Type 0
    Concluded (ok code, run) = ClosedIn (final_state code) code run
    Concluded (err e, run) =
        (raised : DbtvError) × ClosedIn failed (exit_code raised) run
        × ((raised ≡ e) ⊎ (stages.failure_reported ≡ err e))

    handle-Concluded :
        (e : DbtvError) (run : Run)
        → IsRecorded id run
        → Concluded
            (handle around same services stages duck config id root now options limits e run)
    handle-Concluded e run h = reported stages.failure_reported refl
      where
        raised : DbtvError
        raised = or_failure stages.failure e

        reported :
            (w : Result (Unit {0}))
            → stages.failure_reported ≡ w
            → Concluded (
              w >> err raised,
              closed around same services stages duck config id root now options limits failed
                  (exit_code raised)
                  run,
            )
        reported (ok u) q = (raised, closed-ClosedIn failed (exit_code raised) run h, inl refl)
        reported (err f) q = (raised, closed-ClosedIn failed (exit_code raised) run h, inr q)

    closed-IsRecorded :
        (state : RunState) (code : ℕ) (run : Run)
        → IsRecorded id run
        → IsRecorded id (
            closed around same services stages duck config id root now options limits state code
              run)
    closed-IsRecorded state code run h =
        let c = closed-ClosedIn state code run h in record { row = c.row; only = c.only }

    settle_result-Concluded :
        (m : Result ℕ × Run)
        → IsRecorded id m.1
        → Concluded
            (settle_result around same services stages duck config id root now options limits m)
    settle_result-Concluded (err e, run) h = handle-Concluded e run h
    settle_result-Concluded (ok code, run) h = announced stages.completed_event
      where
        announced :
            (w : Result (Unit {0}))
            → Concluded (
                announce around same services stages duck config id root now options limits code
                  (closed around same services stages duck config id root now options limits
                    (final_state code)
                    code
                    run)
                  w)
        announced (ok u) = closed-ClosedIn (final_state code) code run h
        announced (err e) =
            handle-Concluded e
              (closed around same services stages duck config id root now options limits
                (final_state code) code run)
              (closed-IsRecorded (final_state code) code run h)

    finally-HasRow :
        (m : Result ℕ × Run) (w : Result (Unit {0}))
        → stages.resources_written ≡ w
        → Concluded m
        → HasRow stages id (w >> m.0) m.1.files.db.runs
    unfolding state_text
    finally-HasRow (ok code, run) (ok u) q c = record { row = c.row; only = c.only; ends = c.ends }
    finally-HasRow (ok code, run) (err e) q c = record {
      row = c.row;
      only = c.only;
      ends = inr (q, (code, c.ends));
    }
    finally-HasRow (err e, run) (ok u) q (raised, c, o) = record {
      row = c.row;
      only = c.only;
      ends = inl (raised, c.ends, elim o [ inl x ↦ inl x | inr x ↦ inr (inl x) ]);
    }
    finally-HasRow (err e, run) (err f) q (raised, c, o) = record {
      row = c.row;
      only = c.only;
      ends = inl (raised, c.ends, inr (inr q));
    }

  -- The row that is inserted when a run starts.
  abbrev pub first_row : RunRow
  first_row = record {
    invocation_id = id;
    command = options.command;
    state = "PLANNING";
    started_at = stages.started_at;
    completed_at = none;
    remote_query_count = 0;
    artifact_path = root;
    exit_code = none;
  }

  keep-started :
      (rows : List RunRow)
      → keep (is_run id) (keep (λ r. not (is_run id r)) rows ++ first_row ∷ []) ≡ first_row ∷ []
  unfolding keep
  keep-started [] = ground (arith, eq_refl id)
  keep-started (r ∷ rows) = ground (arith, keep-started rows)

  started-IsRecorded :
      (limits : Limits) (files : Files)
      → IsRecorded id
          (started around same services stages duck config id root now options limits files)
  unfolding start_run state_text
  started-IsRecorded limits files = record { row = first_row; only = keep-started files.db.runs }

  -- Unless the command is refused at once or the limit of bytes cannot be parsed, the index has exactly one
  -- row for the run at the end, with the time of completion. If the run returns a code, the row has it as its
  -- exit code, and the state SUCCEEDED or DBT_FAILED by it. If the run raises, the row is FAILED with the
  -- exit code of the error that was handled, which is the one that is raised unless the report of the failure
  -- or the last file raises another, or only the last file raises, after the run has ended.
  pub execute-ends :
      (limits : Limits) (files : Files)
      → (options.capture_results && not (is_run_or_build options.command)) ≡ false
      → read_limits config options ≡ ok limits
      → let e = execute around same services stages duck config id root now options files in
        HasRow stages id e.0 e.1.db.runs
  unfolding execute run_limited
  execute-ends limits files allowed read =
      let body =
        run_body around same services stages duck config id root now options limits
          (started around same services stages duck config id root now options limits files) in
      rw (allowed, read)
        (finally-HasRow limits
          (settle_result around same services stages duck config id root now options limits body)
          stages.resources_written refl
          (settle_result-Concluded limits body (
            run_body-IsRecorded around same services stages duck config id root now options limits
              (started around same services stages duck config id root now options limits files)
              (started-IsRecorded limits files))))

  -- If the command is not refused at once and the limit of bytes that the options give cannot be parsed,
  -- that error is raised, and the index keeps one row for the run, which says that it is planning and has
  -- no end.
  pub execute-unfinished :
      (raised : DbtvError) (files : Files)
      → (options.capture_results && not (is_run_or_build options.command)) ≡ false
      → read_limits config options ≡ err raised
      → let e = execute around same services stages duck config id root now options files in
        (e.0 ≡ err raised) × (keep (is_run id) e.1.db.runs ≡ first_row ∷ [])
  unfolding execute start_run
  execute-unfinished raised files allowed read =
      rw (allowed, read) (refl, keep-started files.db.runs)
