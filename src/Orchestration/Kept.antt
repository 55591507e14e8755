-- ===== src/Orchestration/Kept.antt =====
-- `_refresh` leaves the transitions of the run alone.
use dbtv.Common.{String, ◌≡◌, Bool, List, [], ◌∷◌, Option, insert}
use dbtv.Errors.{Result, ok, err, ◌>>◌}
use dbtv.Errors.Calls.{Ends, continue-Ends}
use dbtv.Models.{DatasetSnapshot, SourceVersion}
use dbtv.Models.Runs.{SourceCapabilities}
use dbtv.Budget.{Limits}
use dbtv.Store.{StoreSettings}
use dbtv.Sources.{PlannedSource}
use dbtv.Orchestration.Run.{RunState, Run}
use dbtv.Orchestration.Capture.{
  Extraction, Services, prepare_connections, attempted, write_source, read_version, after_opening,
  after_creation, refresh, refresh_level, prepare_level, refresh_prepared, refresh_levels,
  refresh_all,
}

module _ (services : Services) (limits : Limits) (settings : StoreSettings) (pinned : Bool)
    (ts : List RunState) where
  abbrev pub Stays : {A : Type 0} → Result A × Run → Type 0
  Stays m = Ends (λ _ run. run.transitions ≡ ts) (λ run. run.transitions ≡ ts) m

  Stays-pair : {A : Type 0} (r : Result A) (run : Run) → run.transitions ≡ ts → Stays (r, run)
  Stays-pair (err e) run h = h
  Stays-pair (ok a) run h = h

  read_version-Stays :
      (s : PlannedSource) (remote : Bool) (x : Extraction) (run : Run)
      (v : Result (Option SourceVersion))
      → run.transitions ≡ ts
      → Stays (read_version services limits settings pinned s remote x run v)
  read_version-Stays s remote x run (err e) h = h
  read_version-Stays s remote x run (ok v) h =
      Stays-pair (write_source services limits settings pinned s remote x run v).0
        (write_source services limits settings pinned s remote x run v).1 h

  after_opening-Stays :
      (s : PlannedSource) (remote : Bool) (x : Extraction) (run : Run) (o : Result (Unit {0}))
      → run.transitions ≡ ts
      → Stays (after_opening services limits settings pinned s remote x run o)
  after_opening-Stays s remote x run (err e) h = h
  after_opening-Stays s remote x run (ok u) h = read_version-Stays s remote x run x.before h

  after_creation-Stays :
      (s : PlannedSource) (x : Extraction) (run : Run) (c : Result SourceCapabilities)
      → run.transitions ≡ ts
      → Stays (after_creation services limits settings pinned s x run c)
  after_creation-Stays s x run (err e) h = h
  after_creation-Stays s x run (ok c) h =
      after_opening-Stays s c.remote_access x
        (attempted services limits settings pinned c.remote_access run) x.opened h

  refresh_level-Stays :
      (level : List PlannedSource) (known : List (String × DatasetSnapshot)) (run : Run)
      → run.transitions ≡ ts
      → Stays (refresh_level services limits settings pinned level known run)
  unfolding refresh_level refresh
  refresh_level-Stays [] known run h = h
  refresh_level-Stays (s ∷ rest) known run h =
      continue-Ends (λ _ r. r.transitions ≡ ts) (λ _ r. r.transitions ≡ ts)
        (λ r. r.transitions ≡ ts) (refresh services limits settings pinned s run)
        (λ snapshot run'.
          refresh_level services limits settings pinned rest
            (insert snapshot.source.unique_id snapshot known) run')
        (after_creation-Stays s (services.extract s) run
          ((services.extract s).created >> services.capabilities s.settings.connector) h)
        (λ snapshot r g.
          refresh_level-Stays rest (insert snapshot.source.unique_id snapshot known) r g)

  module _ (materialize : PlannedSource → DatasetSnapshot → Result PlannedSource) where
    refresh_prepared-Stays :
        (known : List (String × DatasetSnapshot)) (run : Run) (r : Result (List PlannedSource))
        → run.transitions ≡ ts
        → Stays (refresh_prepared services limits settings pinned materialize known run r)
    refresh_prepared-Stays known run (err e) h = h
    refresh_prepared-Stays known run (ok level) h = refresh_level-Stays level known run h

    refresh_levels-Stays :
        (levels : List (List PlannedSource)) (known : List (String × DatasetSnapshot)) (run : Run)
        → run.transitions ≡ ts
        → Stays (refresh_levels services limits settings pinned materialize levels known run)
    unfolding refresh_levels
    refresh_levels-Stays [] known run h = h
    refresh_levels-Stays (level ∷ rest) known run h =
        continue-Ends (λ _ r. r.transitions ≡ ts) (λ _ r. r.transitions ≡ ts)
          (λ r. r.transitions ≡ ts)
          (refresh_prepared services limits settings pinned materialize known run
            (prepare_level services limits settings pinned materialize level known))
          (refresh_levels services limits settings pinned materialize rest)
          (refresh_prepared-Stays known run
            (prepare_level services limits settings pinned materialize level known) h)
          (λ known' r g. refresh_levels-Stays rest known' r g)

    pub refresh_all-Stays :
        (sources : List PlannedSource) (levels : Result (List (List PlannedSource)))
        (known : List (String × DatasetSnapshot)) (run : Run)
        → run.transitions ≡ ts
        → Stays (refresh_all services limits settings pinned materialize sources levels known run)
    unfolding refresh_all
    refresh_all-Stays sources levels known run h =
        after (prepare_connections services [] sources >> levels)
      where
        after :
            (r : Result (List (List PlannedSource)))
            → Stays {A = List (String × DatasetSnapshot)} (elim r [
              | err e ↦ (err e, run)
              | ok ls ↦ refresh_levels services limits settings pinned materialize ls known run
            ])
        after (err e) = h
        after (ok ls) = refresh_levels-Stays ls known run h
