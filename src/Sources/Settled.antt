-- ===== src/Sources/Settled.antt =====
-- `prepare_sources` for a predicate that the decisions of the store have.
use dbtv.Common.{ℕ, String, ◌≡◌, refl, Bool, List, [], All, All-map, AllValues, length}
use dbtv.Errors.{Result, ok, err}
use dbtv.Errors.Calls.{Ends}
use dbtv.Models.Runs.{ExecutionPlan}
use dbtv.Config.Whole.{DbtvConfig}
use dbtv.State.{Db}
use dbtv.Sources.Planned.{PlannedSource, source_levels}
use dbtv.Sources.Options.{CommandOptions}
use dbtv.Sources.Cohorts.{materialize_cohort}
use dbtv.Sources.Prepare.{Surroundings, decide_for, decide_sources, Preparing}
use dbtv.Sources.Settle.{with_decision, redecided, check_reuse, Settling, settle_levels, tags_of}
use dbtv.Sources.Preparation.{
  SourcePreparation, Given, read_options, prepared, settle_planned, settle_decided, prepare_given,
  prepare_read, prepare_sources,
}
use dbtv.Sources.Prepared.{levels-All, settle_levels-Ends, decide_sources-Ends, Ends-ok}

-- `prepare_given` for two predicates as in Prepared.
module _ (P Q : PlannedSource → Type 0) (around : Surroundings)
    (same : PlannedSource → PlannedSource → Bool) (config : DbtvConfig) (options : CommandOptions)
    (now : ℕ) (plan : ExecutionPlan) (g : Given)
    (decided : (source : PlannedSource) (db : Db)
      → P (
          with_decision source
            (decide_for around.disk g.store options g.dataset source.decision.request
              source.settings db).0))
    (waits : (source parent : PlannedSource) (reason : String)
      → Q parent
      → P (with_decision source (redecided source.decision parent.decision.action reason)))
    (checked : (source settled : PlannedSource)
      → P source
      → check_reuse around.disk config
          (tags_of plan.source_mappings [])
          options
          g.store
          g.dataset
          (materialize_cohort around.show around.execute around.hash_cohort around.disk.join)
          source
        ≡ ok settled
      → Q settled) where
  prepared-Ends :
      (m : Result (Unit {0}) × Settling)
      → Ends (λ _ q. AllValues Q q.resolved) (λ _. Unit) m
      → Ends
          (λ (prep : SourcePreparation) _. (prep.store ≡ g.store) × All Q prep.sources)
          (λ _. Unit)
          (prepared around same config options now g m)
  prepared-Ends (err e, q) h = tt
  prepared-Ends (ok u, q) h = (refl, All-map Q (λ e. e.1) q.resolved h)

  settle_planned-Ends :
      (db : Db) (planned : List PlannedSource) (levels : Result (List (List PlannedSource)))
      → ((ls : List (List PlannedSource)) → levels ≡ ok ls → All (All P) ls)
      → Ends
          (λ (prep : SourcePreparation) _. (prep.store ≡ g.store) × All Q prep.sources)
          (λ _. Unit)
          (settle_planned around same config options now plan.source_mappings g db levels)
  settle_planned-Ends db planned (err e) h = tt
  settle_planned-Ends db planned (ok ls) h =
      prepared-Ends
        (settle_levels around.disk config (tags_of plan.source_mappings []) options g.store
          g.dataset
          (materialize_cohort around.show around.execute around.hash_cohort around.disk.join) ls
          (record { resolved = []; db = db }))
        (settle_levels-Ends P Q around.disk config (tags_of plan.source_mappings []) options g.store
          g.dataset
          (materialize_cohort around.show around.execute around.hash_cohort around.disk.join)
          decided waits checked ls (record { resolved = []; db = db }) (h ls refl) tt)

  settle_decided-Ends :
      (m : Result (List PlannedSource) × Preparing)
      → Ends (λ ss _. All P ss) (λ _. Unit) m
      → Ends
          (λ (prep : SourcePreparation) _. (prep.store ≡ g.store) × All Q prep.sources)
          (λ _. Unit)
          (settle_decided around same config options now plan.source_mappings g m)
  unfolding source_levels
  settle_decided-Ends (err e, p) h = tt
  settle_decided-Ends (ok ss, p) h =
      settle_planned-Ends p.db ss (source_levels same ss)
        (λ ls e. levels-All P same (length ss) ss h e)

  pub prepare_given-Ends :
      (invocation_id : String) (db : Db)
      → Ends
          (λ (prep : SourcePreparation) _. (prep.store ≡ g.store) × All Q prep.sources)
          (λ _. Unit)
          (prepare_given around same config options now invocation_id plan.source_mappings g db)
  unfolding prepare_given
  prepare_given-Ends invocation_id db =
      settle_decided-Ends
        (decide_sources around config invocation_id plan.source_mappings options g.store g.profile
          g.dataset plan.source_mappings (record { scopes = []; db = db }))
        (decide_sources-Ends P around config invocation_id plan.source_mappings options g.store
          g.profile g.dataset decided plan.source_mappings (record { scopes = []; db = db }))

  -- The first statements returned what the loops are given.
  pub prepare_sources-All :
      (db : Db) {prep : SourcePreparation} {db' : Db}
      → read_options config plan.source_mappings options now db ≡ ok g
      → prepare_sources around same config options now plan db ≡ (ok prep, db')
      → (prep.store ≡ g.store) × All Q prep.sources
  unfolding prepare_sources
  prepare_sources-All db r h =
      Ends-ok (λ (prep : SourcePreparation) _. (prep.store ≡ g.store) × All Q prep.sources)
        (λ _. Unit)
        (prepare_given around same config options now plan.invocation_id plan.source_mappings g db)
        (prepare_given-Ends plan.invocation_id db) (rw (r, prepare_read) at h)
