-- ===== src/Orchestration/Captured.antt =====
-- `_refresh` leaves the table of runs alone, whether it returns or raises.
use dbtv.Common.{String, ◌≡◌, ◌∙◌, Bool, List, [], ◌∷◌, Option, insert}
use dbtv.Errors.{Result, ok, err, ◌>>◌}
use dbtv.Errors.Calls.{continue-state}
use dbtv.Models.{DatasetSnapshot, SourceVersion}
use dbtv.Models.Runs.{SourceCapabilities}
use dbtv.State.{RunRow}
use dbtv.Budget.{Limits}
use dbtv.Store.{StoreSettings}
use dbtv.Store.Untouched.{write-runs}
use dbtv.Sources.{PlannedSource, unique_id}
use dbtv.Orchestration.Run.{Run}
use dbtv.Orchestration.Capture.{
  Extraction, Services, prepare_connections, attempted, write_source, write_request, read_version,
  after_opening, after_creation, refresh, refresh_level, prepare_level, refresh_prepared,
  refresh_levels, refresh_all,
}

module _ (services : Services) (limits : Limits) (settings : StoreSettings) (pinned : Bool)
    (rows : List RunRow) where
  abbrev pub Leaves : Run → Type 0
  Leaves run = run.files.db.runs ≡ rows

  write_source-runs :
      (s : PlannedSource) (remote : Bool) (x : Extraction) (run : Run) (v : Option SourceVersion)
      → Leaves run
      → Leaves (write_source services limits settings pinned s remote x run v).1
  write_source-runs s remote x run v h =
      write-runs settings (services.writer (unique_id s))
        (write_request services limits settings pinned s x v) _ run.files.disk run.files.db
      ∙ h

  read_version-runs :
      (s : PlannedSource) (remote : Bool) (x : Extraction) (run : Run)
      (v : Result (Option SourceVersion))
      → Leaves run
      → Leaves (read_version services limits settings pinned s remote x run v).1
  read_version-runs s remote x run (err e) h = h
  read_version-runs s remote x run (ok v) h = write_source-runs s remote x run v h

  after_opening-runs :
      (s : PlannedSource) (remote : Bool) (x : Extraction) (run : Run) (o : Result (Unit {0}))
      → Leaves run
      → Leaves (after_opening services limits settings pinned s remote x run o).1
  after_opening-runs s remote x run (err e) h = h
  after_opening-runs s remote x run (ok u) h = read_version-runs s remote x run x.before h

  after_creation-runs :
      (s : PlannedSource) (x : Extraction) (run : Run) (c : Result SourceCapabilities)
      → Leaves run
      → Leaves (after_creation services limits settings pinned s x run c).1
  after_creation-runs s x run (err e) h = h
  after_creation-runs s x run (ok c) h =
      after_opening-runs s c.remote_access x
        (attempted services limits settings pinned c.remote_access run) x.opened h

  refresh_level-runs :
      (level : List PlannedSource) (known : List (String × DatasetSnapshot)) (run : Run)
      → Leaves run
      → Leaves (refresh_level services limits settings pinned level known run).1
  unfolding refresh_level refresh
  refresh_level-runs [] known run h = h
  refresh_level-runs (s ∷ rest) known run h =
      continue-state Leaves (refresh services limits settings pinned s run)
        (λ snapshot run'.
          refresh_level services limits settings pinned rest
            (insert snapshot.source.unique_id snapshot known) run')
        (after_creation-runs s (services.extract s) run
          ((services.extract s).created >> services.capabilities s.settings.connector) h)
        (λ snapshot r g.
          refresh_level-runs rest (insert snapshot.source.unique_id snapshot known) r g)

  module _ (materialize : PlannedSource → DatasetSnapshot → Result PlannedSource) where
    refresh_prepared-runs :
        (known : List (String × DatasetSnapshot)) (run : Run) (r : Result (List PlannedSource))
        → Leaves run
        → Leaves (refresh_prepared services limits settings pinned materialize known run r).1
    refresh_prepared-runs known run (err e) h = h
    refresh_prepared-runs known run (ok level) h = refresh_level-runs level known run h

    refresh_levels-runs :
        (levels : List (List PlannedSource)) (known : List (String × DatasetSnapshot)) (run : Run)
        → Leaves run
        → Leaves (refresh_levels services limits settings pinned materialize levels known run).1
    unfolding refresh_levels
    refresh_levels-runs [] known run h = h
    refresh_levels-runs (level ∷ rest) known run h =
        continue-state Leaves
          (refresh_prepared services limits settings pinned materialize known run
            (prepare_level services limits settings pinned materialize level known))
          (refresh_levels services limits settings pinned materialize rest)
          (refresh_prepared-runs known run
            (prepare_level services limits settings pinned materialize level known) h)
          (λ known' r g. refresh_levels-runs rest known' r g)

    pub refresh_all-runs :
        (sources : List PlannedSource) (levels : Result (List (List PlannedSource)))
        (known : List (String × DatasetSnapshot)) (run : Run)
        → Leaves run
        → Leaves
            (refresh_all services limits settings pinned materialize sources levels known run).1
    unfolding refresh_all
    refresh_all-runs sources levels known run h =
        after (prepare_connections services [] sources >> levels)
      where
        after :
            (r : Result (List (List PlannedSource)))
            → Leaves
                (elim r as (λ _. Result (List (String × DatasetSnapshot)) × Run) [
                  | err e ↦ (err e, run)
                  | ok ls ↦ refresh_levels services limits settings pinned materialize ls known run
                ]).1
        after (err e) = h
        after (ok ls) = refresh_levels-runs ls known run h
