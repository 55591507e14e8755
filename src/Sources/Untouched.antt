-- ===== src/Sources/Untouched.antt =====
-- `prepare_sources` leaves the table of runs alone, whether it returns or raises.
use dbtv.Common.{ℕ, String, ◌≡◌, refl, ◌∙◌, Bool, List, [], ◌∷◌, Option, none, some, lookup}
use dbtv.Errors.{Result, ok, err}
use dbtv.Errors.Calls.{continue-state}
use dbtv.Models.{DatasetSnapshot, SnapshotAction, SourceMapping}
use dbtv.Models.Runs.{ExecutionPlan}
use dbtv.Config.{DataProfile}
use dbtv.Config.Whole.{DbtvConfig}
use dbtv.State.{Db, Payload, RunRow}
use dbtv.Store.{StoreSettings, Disk, given}
use dbtv.Store.Untouched.{decide-runs}
use dbtv.Sources.Planned.{PlannedSource, source_levels}
use dbtv.Sources.Options.{CommandOptions}
use dbtv.Sources.Cohorts.{materialize_cohort}
use dbtv.Sources.Prepare.{
  Surroundings, Requested, Preparing, decide_asked, decide_source, decide_sources, request_source,
  mode_of, named_snapshot,
}
use dbtv.Sources.Settle.{
  reused, check_reuse, decide_made, follow_reused, follow_parent, follow, await_parent,
  settled_with, check_followed, Settling, settle_source, settle_level, settle_levels,
}
use dbtv.Sources.Settle.{tags_of}
use dbtv.Sources.Preparation.{
  Given, prepared, settle_planned, settle_decided, prepare_given, prepare_read, read_options,
  prepare_sources,
}

module _ (disk : Disk) (config : DbtvConfig) (tags : List (String × List String))
    (options : CommandOptions) (store : StoreSettings) (dataset : Option Payload)
    (materialize : PlannedSource → DatasetSnapshot → Result PlannedSource) where
  decide_made-runs :
      (db : Db) (m : Result PlannedSource)
      → (decide_made disk config tags options store dataset materialize db m).1.runs ≡ db.runs
  decide_made-runs db (err e) = refl
  decide_made-runs db (ok made) =
      decide-runs store disk made.decision.request made.settings.connector (mode_of dataset options)
        (named_snapshot dataset options made.decision.request.source.unique_id) db

  follow_reused-runs :
      (source : PlannedSource) (action : SnapshotAction) (db : Db) (o : Option DatasetSnapshot)
      → (follow_reused disk config tags options store dataset materialize source action db o).1.runs
        ≡ db.runs
  follow_reused-runs source action db none = refl
  follow_reused-runs source action db (some s) = decide_made-runs db (materialize source s)

  follow_parent-runs :
      (source : PlannedSource) (db : Db) (o : Option PlannedSource)
      → (follow_parent disk config tags options store dataset materialize source db o).1.runs
        ≡ db.runs
  follow_parent-runs source db none = refl
  follow_parent-runs source db (some parent) =
      follow_reused-runs source parent.decision.action db (reused parent.decision)

  follow-runs :
      (source : PlannedSource) (p : Settling) (o : Option String)
      → (follow disk config tags options store dataset materialize source p o).1.runs ≡ p.db.runs
  follow-runs source p none = refl
  follow-runs source p (some id) = follow_parent-runs source p.db (lookup id p.resolved)

  settled_with-runs :
      (p : Settling) (db : Db) (r : Result PlannedSource)
      → (settled_with disk config tags options store dataset materialize p db r).1.db.runs ≡ db.runs
  settled_with-runs p db (err e) = refl
  settled_with-runs p db (ok settled) = refl

  check_followed-runs :
      (p : Settling) (m : Result PlannedSource × Db)
      → (check_followed disk config tags options store dataset materialize p m).1.db.runs ≡ m.1.runs
  check_followed-runs p (err e, db) = settled_with-runs p db (err e)
  check_followed-runs p (ok source, db) =
      settled_with-runs p db (check_reuse disk config tags options store dataset materialize source)

  module _ (rows : List RunRow) where
    abbrev Keeps : Settling → Type 0
    Keeps p = p.db.runs ≡ rows

    settle_level-runs :
        (level : List PlannedSource) (p : Settling)
        → Keeps p
        → Keeps (settle_level disk config tags options store dataset materialize level p).1
    unfolding settle_level settle_source await_parent
    settle_level-runs [] p h = h
    settle_level-runs (source ∷ rest) p h =
        continue-state Keeps
          (settle_source disk config tags options store dataset materialize source p)
          (λ _. settle_level disk config tags options store dataset materialize rest)
          (check_followed-runs p
              (await_parent disk config tags options store dataset materialize source p)
            ∙ follow-runs source p (given source.cohort_parent)
            ∙ h)
          (λ _ q k. settle_level-runs rest q k)

    pub settle_levels-runs :
        (levels : List (List PlannedSource)) (p : Settling)
        → Keeps p
        → Keeps (settle_levels disk config tags options store dataset materialize levels p).1
    unfolding settle_levels
    settle_levels-runs [] p h = h
    settle_levels-runs (level ∷ rest) p h =
        continue-state Keeps
          (settle_level disk config tags options store dataset materialize level p)
          (λ _. settle_levels disk config tags options store dataset materialize rest)
          (settle_level-runs level p h) (λ _ q k. settle_levels-runs rest q k)

module _ (around : Surroundings) (config : DbtvConfig) (invocation_id : String)
    (mappings : List SourceMapping) (options : CommandOptions) (store : StoreSettings)
    (profile : DataProfile) (dataset : Option Payload) (rows : List RunRow) where
  abbrev Leaves : Preparing → Type 0
  Leaves p = p.db.runs ≡ rows

  decide_asked-runs :
      (p : Preparing) (r : Result (Requested × List (String × String)))
      → Leaves p
      → Leaves
          (decide_asked around config invocation_id mappings options store profile dataset p r).1
  decide_asked-runs p (err e) h = h
  decide_asked-runs p (ok (asked, scopes)) h =
      decide-runs store around.disk asked.request asked.routed.settings.connector
        (mode_of dataset options) (named_snapshot dataset options asked.request.source.unique_id)
        p.db
      ∙ h

  decide_sources-runs :
      (ms : List SourceMapping) (p : Preparing)
      → Leaves p
      → Leaves
          (decide_sources around config invocation_id mappings options store profile dataset ms p).1
  unfolding decide_sources decide_source
  decide_sources-runs [] p h = h
  decide_sources-runs (m ∷ ms) p h =
      continue-state Leaves
        (decide_source around config invocation_id mappings options store profile dataset m p) _
        (decide_asked-runs p
          (request_source around config invocation_id mappings options store profile dataset m
            p.scopes)
          h)
        (λ source q k.
          continue-state Leaves
            (decide_sources around config invocation_id mappings options store profile dataset ms q)
            _ (decide_sources-runs ms q k) (λ later r l. l))

module _ (around : Surroundings) (same : PlannedSource → PlannedSource → Bool) (config : DbtvConfig)
    (options : CommandOptions) (now : ℕ) where
  prepared-runs :
      (g : Given) (m : Result (Unit {0}) × Settling)
      → (prepared around same config options now g m).1.runs ≡ m.1.db.runs
  prepared-runs g (err e, q) = refl
  prepared-runs g (ok u, q) = refl

  settle_planned-runs :
      (mappings : List SourceMapping) (g : Given) (db : Db) (r : Result (List (List PlannedSource)))
      → (settle_planned around same config options now mappings g db r).1.runs ≡ db.runs
  settle_planned-runs mappings g db (err e) = refl
  settle_planned-runs mappings g db (ok levels) =
      let make =
        materialize_cohort around.show around.execute around.hash_cohort around.disk.join in
      let tags = tags_of mappings [] in
      prepared-runs g (
        settle_levels around.disk config tags options g.store g.dataset make levels
          (record { resolved = []; db = db }))
      ∙ settle_levels-runs around.disk config tags options g.store g.dataset make db.runs levels
          (record { resolved = []; db = db }) refl

  settle_decided-runs :
      (mappings : List SourceMapping) (g : Given) (m : Result (List PlannedSource) × Preparing)
      → (settle_decided around same config options now mappings g m).1.runs ≡ m.1.db.runs
  settle_decided-runs mappings g (err e, p) = refl
  settle_decided-runs mappings g (ok planned, p) =
      settle_planned-runs mappings g p.db (source_levels same planned)

  prepare_read-runs :
      (plan : ExecutionPlan) (db : Db) (r : Result Given)
      → (prepare_read around same config options now plan db r).1.runs ≡ db.runs
  unfolding prepare_given
  prepare_read-runs plan db (err e) = refl
  prepare_read-runs plan db (ok g) =
      settle_decided-runs plan.source_mappings g (
        decide_sources around config plan.invocation_id plan.source_mappings options g.store
          g.profile g.dataset plan.source_mappings (record { scopes = []; db = db }))
      ∙ decide_sources-runs around config plan.invocation_id plan.source_mappings options g.store
          g.profile g.dataset db.runs plan.source_mappings (record { scopes = []; db = db }) refl

  pub prepare_sources-runs :
      (plan : ExecutionPlan) (db : Db)
      → (prepare_sources around same config options now plan db).1.runs ≡ db.runs
  unfolding prepare_sources
  prepare_sources-runs plan db =
      prepare_read-runs plan db (read_options config plan.source_mappings options now db)
