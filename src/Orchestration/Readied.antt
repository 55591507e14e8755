-- ===== src/Orchestration/Readied.antt =====
-- The stage in which the snapshots of a run are reused and captured.
use dbtv.Common.{
  ℕ, String, ◌≡◌, refl, subst, sym, Bool, true, false, not, ◌&&◌, List, [], ◌∷◌, Option, none, some,
  if◌then◌else◌, arith, insert,
}
use dbtv.Errors.{Result, ok, err}
use dbtv.Errors.Calls.{continue, Ends, continue-Ends}
use dbtv.Models.{DatasetSnapshot, SnapshotAction}
use dbtv.Config.Whole.{DbtvConfig}
use dbtv.Budget.{Limits}
use dbtv.Backend.Bind.{Duck}
use dbtv.Store.{StoreSettings}
use dbtv.Store.Write.{Files, pin}
use dbtv.Sources.{PlannedSource, source_levels, unique_id}
use dbtv.Sources.Options.{CommandOptions}
use dbtv.Sources.Prepare.{Surroundings}
use dbtv.Sources.Cohorts.{materialize_cohort}
use dbtv.Sources.Preparation.{SourcePreparation}
use dbtv.Orchestration.Run.{RunState, policy_approved, sources_ready, failed, Run}
use dbtv.Orchestration.Capture.{Services, refresh_all}
use dbtv.Orchestration.Kept.{refresh_all-Stays}
use dbtv.Orchestration.Execute.{
  Stages, here, with_pinned, reuse_one, reuse_all, capture, resolve, ready_run, with_action, is_nil,
}
use dbtv.Orchestration.Traces.{IsPath, IsHead, IsAt, IsOpen, Stage, transition-IsAt, edge}
use dbtv.Orchestration.Stages.{open_at, here-Stage, IsQuiet}

module _ (around : Surroundings) (same : PlannedSource → PlannedSource → Bool) (services : Services)
    (stages : Stages) (duck : Duck) (config : DbtvConfig) (id root : String) (now : ℕ)
    (options : CommandOptions) (limits : Limits) (is_local : Bool) where
  abbrev opened :
      (s : RunState) (run : Run) → edge s failed ≡ true → IsAt is_local s run → IsOpen is_local run
  opened = open_at around same services stages duck config id root now options limits is_local

  with_files-IsAt :
      (s : RunState) (files : Files) (run : Run)
      → IsAt is_local s run
      → IsAt is_local s (record run { files = files })
  with_files-IsAt s files run a = record {
    path = a.path;
    head = a.head;
    attempted = a.attempted;
    queries = a.queries;
  }

  reuse_one-Stage :
      (store : StoreSettings) (source : String) (s : DatasetSnapshot) (run : Run)
      → IsAt is_local policy_approved run
      → Stage is_local policy_approved (
          reuse_one around same services stages duck config id root now options limits store source
            s run)
  reuse_one-Stage store source s run a = choose options.keep_snapshot
    where
      pinned :
          (m : Result DatasetSnapshot × Files)
          → Stage is_local policy_approved
              (with_pinned around same services stages duck config id root now options limits run m)
      pinned (err e, files) =
          opened policy_approved (record run { files = files }) refl
            (with_files-IsAt policy_approved files run a)
      pinned (ok t, files) = with_files-IsAt policy_approved files run a

      choose :
          (b : Bool)
          → Stage is_local policy_approved (
              if b
              then with_pinned around same services stages duck config id root now options limits
                  run
                  (pin store (services.writer source) s run.files)
              else (ok s, run))
      choose true = pinned (pin store (services.writer source) s run.files)
      choose false = a

  reuse_all-Stage :
      (store : StoreSettings) (sources : List PlannedSource) (run : Run)
      → IsAt is_local policy_approved run
      → Stage is_local policy_approved (
          reuse_all around same services stages duck config id root now options limits store sources
            run)
  unfolding reuse_all
  reuse_all-Stage store [] run a = a
  reuse_all-Stage store (s ∷ rest) run a = carried (reuse_all-Stage store rest) s.decision.snapshot
    where
      carried :
          ((r : Run)
            → IsAt is_local policy_approved r
            → Stage is_local policy_approved (
                reuse_all around same services stages duck config id root now options limits store
                  rest r))
          → (o : Option DatasetSnapshot)
          → Stage is_local policy_approved {A = List (String × DatasetSnapshot)} (elim o [
            | none ↦
                reuse_all around same services stages duck config id root now options limits store
                  rest run
            | some snapshot ↦
                continue
                  (reuse_one around same services stages duck config id root now options limits
                    store
                    (unique_id s)
                    snapshot
                    run)
                  (λ kept r.
                    continue
                      (reuse_all around same services stages duck config id root now options limits
                        store rest r)
                      (λ known r'. (ok (insert (unique_id s) kept known), r')))
          ])
      carried later none = later run a
      carried later (some snapshot) =
          continue-Ends (λ _ r. IsAt is_local policy_approved r)
            (λ _ r. IsAt is_local policy_approved r) (IsOpen is_local)
            (reuse_one around same services stages duck config id root now options limits store
              (unique_id s) snapshot run)
            _ (reuse_one-Stage store (unique_id s) snapshot run a)
            (λ kept r b.
              continue-Ends (λ _ r'. IsAt is_local policy_approved r')
                (λ _ r'. IsAt is_local policy_approved r') (IsOpen is_local)
                (reuse_all around same services stages duck config id root now options limits store
                  rest r)
                _ (later r b) (λ known r' c. c))

  -- A capture is made in a mode that is not local only.
  kept-IsAt :
      (b : Bool) (s : RunState) (run run' : Run)
      → b ≡ false
      → run'.transitions ≡ run.transitions
      → IsAt b s run
      → IsAt b s run'
  kept-IsAt b s run run' f t a = record {
    path = subst IsPath (sym t) a.path;
    head = subst (IsHead s) (sym t) a.head;
    attempted = rw f refl;
    queries = rw f refl;
  }

  capture-Stage :
      (prep : SourcePreparation) (sources : List PlannedSource)
      (known : List (String × DatasetSnapshot)) (run : Run)
      → (is_local && not (is_nil sources)) ≡ false
      → IsAt is_local policy_approved run
      → Stage is_local policy_approved (
          capture around same services stages duck config id root now options limits prep sources
            known run)
  unfolding capture
  capture-Stage prep [] known run q a = a
  capture-Stage prep (s ∷ rest) known run q a =
      continue-Ends (λ _ r. IsAt is_local policy_approved r)
        (λ _ r. IsAt is_local policy_approved r) (IsOpen is_local) captured _
        (stayed captured (
          refresh_all-Stays services limits prep.store options.keep_snapshot run.transitions make
            (s ∷ rest) (source_levels same (s ∷ rest)) known run refl))
        (λ _ r b. record {
          path = b.path;
          head = b.head;
          attempted = b.attempted;
          queries = b.queries;
        })
    where
      make : PlannedSource → DatasetSnapshot → Result PlannedSource
      make = materialize_cohort around.show around.execute around.hash_cohort around.disk.join

      captured : Result (List (String × DatasetSnapshot)) × Run
      captured =
          refresh_all services limits prep.store options.keep_snapshot make (s ∷ rest)
            (source_levels same (s ∷ rest)) known run

      remote : is_local ≡ false
      remote = ground (arith, q)

      stayed :
          (m : Result (List (String × DatasetSnapshot)) × Run)
          → Ends (λ _ r. r.transitions ≡ run.transitions) (λ r. r.transitions ≡ run.transitions) m
          → Stage is_local policy_approved m
      stayed (err e, r) h =
          opened policy_approved r refl (kept-IsAt is_local policy_approved run r remote h a)
      stayed (ok k, r) h = kept-IsAt is_local policy_approved run r remote h a

  pub ready_run-Stage :
      (prep : SourcePreparation) (run : Run)
      → IsQuiet around same services stages duck config id root now options limits is_local prep
      → IsAt is_local policy_approved run
      → Stage is_local sources_ready
          (ready_run around same services stages duck config id root now options limits prep run)
  unfolding ready_run
  ready_run-Stage prep run q a =
      continue-Ends At Ready (IsOpen is_local)
        (reuse_all around same services stages duck config id root now options limits prep.store
          (with_action SnapshotAction.reuse prep.sources) run)
        _ (reuse_all-Stage prep.store (with_action SnapshotAction.reuse prep.sources) run a)
        (λ known r b.
          continue-Ends At Ready (IsOpen is_local)
            (capture around same services stages duck config id root now options limits prep
              (with_action SnapshotAction.refresh prep.sources) known r)
            _ (capture-Stage prep (with_action SnapshotAction.refresh prep.sources) known r q b)
            (λ resolved r' c.
              continue-Ends At Ready (IsOpen is_local)
                (here
                  (resolve around same services stages duck config id root now options limits
                    prep.sources resolved)
                  r')
                _
                (here-Stage around same services stages duck config id root now options limits
                  is_local policy_approved _ r' refl c)
                (λ snapshots r'' d.
                  transition-IsAt is_local id policy_approved sources_ready r'' refl d)))
    where
      At : {A : Type 0} → A → Run → Type 0
      At _ r = IsAt is_local policy_approved r

      Ready : {A : Type 0} → A → Run → Type 0
      Ready _ r = IsAt is_local sources_ready r
