-- ===== src/Orchestration/Local.antt =====
-- The whole run: its transitions follow the edges of its states, and in a local mode it leaves the remote
-- side alone.
use dbtv.Common.{
  ℕ, String, ◌≡◌, refl, Bool, true, false, List, if◌then◌else◌, arith, ◌⊎◌, inl, inr, ◌==◌, nat_eq,
}
use dbtv.Errors.{DbtvError, Result, ok, err, ◌>>◌}
use dbtv.Errors.Calls.{continue, Ends, continue-Ends}
use dbtv.Models.{DatasetSnapshot}
use dbtv.Models.Runs.{ExecutionPlan}
use dbtv.Config.Whole.{DbtvConfig}
use dbtv.Budget.{Limits}
use dbtv.Backend.Bind.{Duck}
use dbtv.Store.{is_local_mode}
use dbtv.Store.Write.{Files}
use dbtv.Sources.{PlannedSource}
use dbtv.Sources.Options.{CommandOptions}
use dbtv.Sources.Prepare.{Surroundings}
use dbtv.Sources.Preparation.{SourcePreparation}
use dbtv.Sources.Checked.{effective_mode}
use dbtv.Orchestration.Run.{
  RunState, planning, planned, policy_approved, sources_ready, bound, dbt_completed, succeeded,
  dbt_failed, failed, Run,
}
use dbtv.Orchestration.Capture.{Services}
use dbtv.Orchestration.Execute.{
  Stages, here, plan_run, prepare_run, ready_run, publish_run, bind_run, dbt_run, local_run,
  run_body, closed, handle, announce, settle_result, close, started, run_limited, final_state,
}
use dbtv.Orchestration.Traces.{IsPath, IsHead, IsAt, IsOpen, Stage, IsPath-cons, edge}
use dbtv.Orchestration.Readied.{ready_run-Stage}
use dbtv.Orchestration.Bindings.{publish_run-Stage, bind_run-Stage, dbt_run-Stage}
use dbtv.Orchestration.Stages.{plan_run-Stage, prepare_run-Ends, open_at, IsQuiet}

-- What a result says of the last state: FAILED if the run raises, unless it had ended before and only the
-- file that is written at last raises.
abbrev pub IsLast : Stages → Result ℕ → RunState → Type 0
IsLast stages (ok code) s = s ≡ final_state code
IsLast stages (err e) s =
    (s ≡ failed) ⊎ ((stages.resources_written ≡ err e) × ((code : ℕ) × (s ≡ final_state code)))

abbrev IsHandled : Result ℕ → RunState → Type 0
IsHandled (ok code) s = s ≡ final_state code
IsHandled (err e) s = s ≡ failed

handled : (u : Result (Unit {0})) (e : DbtvError) → IsHandled (u >> err e) failed
handled (ok u) e = refl
handled (err f) e = refl

module _ (around : Surroundings) (same : PlannedSource → PlannedSource → Bool) (services : Services)
    (stages : Stages) (duck : Duck) (config : DbtvConfig) (id root : String) (now : ℕ)
    (options : CommandOptions) (limits : Limits) (is_local : Bool) where
  abbrev opened :
      (s : RunState) (run : Run) → edge s failed ≡ true → IsAt is_local s run → IsOpen is_local run
  opened = open_at around same services stages duck config id root now options limits is_local

  abbrev At : RunState → {A : Type 0} → A → Run → Type 0
  At s _ r = IsAt is_local s r

  -- The run may succeed: it has ended without dbt, or dbt has been run.
  abbrev MayClose : ℕ → Run → Type 0
  MayClose code run =
      ((code ≡ 0) × IsAt is_local sources_ready run) ⊎ IsAt is_local dbt_completed run

  local_run-Ends :
      (plan : ExecutionPlan) (known : List (String × DatasetSnapshot)) (run : Run)
      → IsAt is_local sources_ready run
      → Ends MayClose (IsOpen is_local) (
          local_run around same services stages duck config id root now options limits plan known
            run)
  local_run-Ends plan known run a = choose (options.command == "sync")
    where
      dbt : Unit {0} → Run → Result ℕ × Run
      dbt _ = dbt_run around same services stages duck config id root now options limits

      weaken :
          (m : Result ℕ × Run) → Stage is_local dbt_completed m → Ends MayClose (IsOpen is_local) m
      weaken (err e, r) h = h
      weaken (ok code, r) h = inr h

      choose :
          (b : Bool)
          → Ends MayClose (IsOpen is_local) (
              if b
              then (ok 0, run)
              else continue
                  (bind_run around same services stages duck config id root now options limits plan
                    known run)
                  dbt)
      choose true = inl (refl, a)
      choose false =
          continue-Ends (At bound) MayClose (IsOpen is_local)
            (bind_run around same services stages duck config id root now options limits plan known
              run)
            dbt
            (bind_run-Stage around same services stages duck config id root now options limits
              is_local plan known run a)
            (λ u r b.
              weaken (dbt_run around same services stages duck config id root now options limits r)
                (dbt_run-Stage around same services stages duck config id root now options limits
                  is_local r b))

  may_fail : (code : ℕ) (run : Run) → MayClose code run → IsOpen is_local run
  may_fail code run (inl (z, a)) = opened sources_ready run refl a
  may_fail code run (inr a) = opened dbt_completed run refl a

  finish-Ends :
      (code : ℕ) (run : Run) (r : Result (Unit {0}))
      → MayClose code run
      → Ends MayClose (IsOpen is_local) (here (r >> ok code) run)
  finish-Ends code run (err e) h = may_fail code run h
  finish-Ends code run (ok u) h = h

  run_body-Ends :
      (run : Run)
      → is_local_mode (effective_mode options) ≡ is_local
      → IsAt is_local planning run
      → Ends MayClose
          (IsOpen is_local)
          (run_body around same services stages duck config id root now options limits run)
  unfolding run_body
  run_body-Ends run l a =
      continue-Ends (At planned) MayClose (IsOpen is_local)
        (plan_run around same services stages duck config id root now options limits run) _
        (plan_run-Stage around same services stages duck config id root now options limits is_local
          run a)
        (λ plan r1 a1.
          continue-Ends
            (λ (prep : SourcePreparation) r.
              IsAt is_local policy_approved r
              × IsQuiet around same services stages duck config id root now options limits is_local
                  prep)
            MayClose (IsOpen is_local)
            (prepare_run around same services stages duck config id root now options limits plan r1)
            _
            (prepare_run-Ends around same services stages duck config id root now options limits
              is_local plan r1 l a1)
            (λ prep r2 a2.
              continue-Ends (At sources_ready) MayClose (IsOpen is_local)
                (ready_run around same services stages duck config id root now options limits prep
                  r2)
                _
                (ready_run-Stage around same services stages duck config id root now options limits
                  is_local prep r2 a2.1 a2.0)
                (λ resolved r3 a3.
                  continue-Ends (At sources_ready) MayClose (IsOpen is_local)
                    (publish_run around same services stages duck config id root now options limits
                      plan resolved.1 r3)
                    _
                    (publish_run-Stage around same services stages duck config id root now options
                      limits is_local plan resolved.1 r3 a3)
                    (λ _ r4 a4.
                      continue-Ends MayClose MayClose (IsOpen is_local)
                        (local_run around same services stages duck config id root now options
                          limits plan resolved.0 r4)
                        _ (local_run-Ends plan resolved.0 r4 a4)
                        (λ code r5 a5. finish-Ends code r5 stages.done a5)))))

  closed-IsAt :
      (s t : RunState) (code : ℕ) (run : Run)
      → edge s t ≡ true
      → IsAt is_local s run
      → IsAt is_local t
          (closed around same services stages duck config id root now options limits t code run)
  closed-IsAt s t code run e a = record {
    path = IsPath-cons s t run.transitions a.path a.head e;
    head = refl;
    attempted = a.attempted;
    queries = a.queries;
  }

  dbt_ends : (b : Bool) → edge dbt_completed (if b then succeeded else dbt_failed) ≡ true
  dbt_ends true = refl
  dbt_ends false = refl

  ends_open : (b : Bool) → edge (if b then succeeded else dbt_failed) failed ≡ true
  ends_open true = refl
  ends_open false = refl

  -- How the end of a run is reached: the last state, for the result.
  record EndsAt (m : Result ℕ × Run) : Type 0 where
    state : RunState
    at : IsAt is_local state m.1
    last : IsLast stages m.0 state

  -- Before the `finally` block: FAILED exactly if an error was raised.
  record HandledAt (m : Result ℕ × Run) : Type 0 where
    state : RunState
    at : IsAt is_local state m.1
    last : IsHandled m.0 state

  handle-HandledAt :
      (e : DbtvError) (run : Run)
      → IsOpen is_local run
      → HandledAt (handle around same services stages duck config id root now options limits e run)
  handle-HandledAt e run h = record {
    state = failed;
    at = closed-IsAt h.state failed _ run h.live h.at;
    last = handled stages.failure_reported _;
  }

  announce-HandledAt :
      (code : ℕ) (run : Run) (event : Result (Unit {0}))
      → IsAt is_local (final_state code) run
      → HandledAt (
          announce around same services stages duck config id root now options limits code run
            event)
  announce-HandledAt code run (err e) a =
      handle-HandledAt e run (opened (final_state code) run (ends_open (nat_eq code 0)) a)
  announce-HandledAt code run (ok u) a = record { state = final_state code; at = a; last = refl }

  settle_result-HandledAt :
      (m : Result ℕ × Run)
      → Ends MayClose (IsOpen is_local) m
      → HandledAt
          (settle_result around same services stages duck config id root now options limits m)
  settle_result-HandledAt (err e, run) h = handle-HandledAt e run h
  settle_result-HandledAt (ok code, run) (inl (z, a)) =
      announce-HandledAt code _ stages.completed_event
        (closed-IsAt sources_ready (final_state code) code run (rw z refl) a)
  settle_result-HandledAt (ok code, run) (inr a) =
      announce-HandledAt code _ stages.completed_event
        (closed-IsAt dbt_completed (final_state code) code run (dbt_ends (nat_eq code 0)) a)

  finally-IsLast :
      (w : Result (Unit {0})) (r : Result ℕ) (s : RunState)
      → stages.resources_written ≡ w
      → IsHandled r s
      → IsLast stages (w >> r) s
  finally-IsLast (ok u) (ok code) s e h = h
  finally-IsLast (ok u) (err f) s e h = inl h
  finally-IsLast (err f) (ok code) s e h = inr (e, (code, h))
  finally-IsLast (err f) (err g) s e h = inl h

  close-EndsAt :
      (m : Result ℕ × Run)
      → Ends MayClose (IsOpen is_local) m
      → EndsAt (close around same services stages duck config id root now options limits m)
  close-EndsAt m h =
      let c = settle_result-HandledAt m h in
      record {
        state = c.state;
        at = c.at;
        last = finally-IsLast stages.resources_written _ c.state refl c.last;
      }

module _ (around : Surroundings) (same : PlannedSource → PlannedSource → Bool) (services : Services)
    (stages : Stages) (duck : Duck) (config : DbtvConfig) (id root : String) (now : ℕ)
    (options : CommandOptions) (limits : Limits) (files : Files) where
  run_limited-EndsAt :
      (b : Bool)
      → is_local_mode (effective_mode options) ≡ b
      → EndsAt around same services stages duck config id root now options limits b
          (run_limited around same services stages duck config id root now options limits files)
  unfolding run_limited
  run_limited-EndsAt b l =
      close-EndsAt around same services stages duck config id root now options limits b
        (run_body around same services stages duck config id root now options limits
          (started around same services stages duck config id root now options limits files))
        (run_body-Ends around same services stages duck config id root now options limits b
          (started around same services stages duck config id root now options limits files) l
          (record { path = refl; head = refl; attempted = ground arith; queries = ground arith }))

  -- Whatever the parts of a run answer, its states follow the edges from PLANNING. The last one is SUCCEEDED
  -- or DBT_FAILED, by the exit code, if the run returns, and FAILED if it raises, unless it had ended and
  -- only the file that is written at last raises.
  pub run_limited-moves :
      let m =
        run_limited around same services stages duck config id root now options limits files in
      IsPath m.1.transitions × ((s : RunState) × IsHead s m.1.transitions × IsLast stages m.0 s)
  run_limited-moves =
      let a = run_limited-EndsAt (is_local_mode (effective_mode options)) refl in
      (a.at.path, (a.state, a.at.head, a.last))

  -- In the offline and the cached mode, and for a dataset, a run attempts no connection and completes no
  -- remote query, whether it returns or raises.
  pub run_limited-local :
      is_local_mode (effective_mode options) ≡ true
      → let m =
          run_limited around same services stages duck config id root now options limits files in
        (m.1.remote_attempted ≡ false) × (m.1.remote_queries ≡ 0)
  run_limited-local l = let a = run_limited-EndsAt true l in (a.at.attempted, a.at.queries)
