-- ===== src/Sources/Preparation.antt =====
-- sources.py: `prepare_sources`. `now` is the moment of its calls of `datetime.now`.
use dbtv.Common.{
  ℕ, min, String, Bool, not, ◌&&◌, ◌||◌, ◌==◌, List, [], ◌∷◌, map, Option, none, some,
  if◌then◌else◌, lookup,
}
use dbtv.Errors.{Result, ok, err, config_error, require, ◌>>=◌, ◌>>◌}
use dbtv.Models.{SourceMapping}
use dbtv.Models.Runs.{ExecutionPlan}
use dbtv.Config.{PolicySettings, DataProfile}
use dbtv.Config.Whole.{DbtvConfig}
use dbtv.State.{Db, Payload, get_dataset}
use dbtv.Store.{
  StoreSettings, given, is_refresh_mode, Integrity, metadata_only, metadata_and_sizes, checksums,
}
use dbtv.Sources.Planned.{PlannedSource, source_levels}
use dbtv.Sources.Options.{CommandOptions}
use dbtv.Sources.Scope.{or_text}
use dbtv.Sources.Cohorts.{materialize_cohort}
use dbtv.Sources.Prepare.{Surroundings, Preparing, is_some, decide_sources}
use dbtv.Sources.Settle.{tags_of, Settling, settle_levels}

pub record SourcePreparation : Type 0 where
  pub store : StoreSettings
  pub sources : List PlannedSource

abbrev pub integrity_of : String → Integrity
integrity_of text =
    if text == "checksums"
    then checksums
    else (if text == "metadata_and_sizes" then metadata_and_sizes else metadata_only)

-- The least of a duration and those that the policy gives the tags.
unfoldable pub capped_ttl : PolicySettings → List String → ℕ → ℕ
capped_ttl policy [] ttl = ttl
capped_ttl policy (tag ∷ tags) ttl =
    capped_ttl policy tags
      (elim (lookup tag policy.max_cache_age_for_tags) [ none ↦ ttl | some age ↦ min ttl age ])

unfoldable pub ttl_for : PolicySettings → List SourceMapping → ℕ → ℕ
unfolding capped_ttl
ttl_for policy [] ttl = ttl
ttl_for policy (m ∷ ms) ttl = ttl_for policy ms (capped_ttl policy m.tags ttl)

abbrev pub first_ttl : DbtvConfig → CommandOptions → Result ℕ
first_ttl config options = elim options.cache_ttl [
  | none ↦ ok config.cache.default_ttl
  | some t ↦ t
]

abbrev pub store_of : DbtvConfig → List SourceMapping → ℕ → ℕ → StoreSettings
store_of config mappings now ttl = record {
  ttl = ttl_for config.policy mappings ttl;
  now = now;
  integrity = integrity_of config.cache.integrity;
  retain_previous = config.cache.retain_previous_snapshots;
  maximum_size = config.cache.maximum_size;
}

abbrev pub find_profile : DbtvConfig → CommandOptions → Result DataProfile
find_profile config options =
    elim (lookup (or_text options.data_profile config.default_data_profile) config.data_profiles) [
      | none ↦ err config_error
      | some profile ↦ ok profile
    ]

-- `--dataset-id` with `--snapshot-id` or the refresh mode.
abbrev pub is_conflicting : CommandOptions → Bool
is_conflicting options =
    is_some (given options.dataset_id)
    && (is_some (given options.snapshot_id) || is_refresh_mode options.source_mode)

abbrev pub find_dataset : CommandOptions → Db → Result (Option Payload)
find_dataset options db = elim (given options.dataset_id) [
  | none ↦ ok none
  | some id ↦ get_dataset id db >>= λ payload. ok (some payload)
]

-- What the first statements compute, all of which only read.
pub record Given : Type 0 where
  pub store : StoreSettings
  pub profile : DataProfile
  pub dataset : Option Payload

unfoldable pub read_options :
    DbtvConfig → List SourceMapping → CommandOptions → ℕ → Db → Result Given
unfolding ttl_for
read_options config mappings options now db =
    require (not (is_conflicting options)) config_error
    >> find_profile config options
    >>= λ profile. first_ttl config options >>= λ ttl. find_dataset options db >>= λ dataset.
        ok (record {
          store = store_of config mappings now ttl;
          profile = profile;
          dataset = dataset;
        })

module _ (around : Surroundings) (same : PlannedSource → PlannedSource → Bool) (config : DbtvConfig)
    (options : CommandOptions) (now : ℕ) where
  abbrev pub prepared : Given → Result (Unit {0}) × Settling → Result SourcePreparation × Db
  prepared g (err e, q) = (err e, q.db)
  prepared g (ok _, q) =
      (ok (record { store = g.store; sources = map (λ e. e.1) q.resolved }), q.db)

  abbrev pub settle_planned :
      List SourceMapping
      → Given
      → Db
      → Result (List (List PlannedSource))
      → Result SourcePreparation × Db
  settle_planned mappings g db (err e) = (err e, db)
  settle_planned mappings g db (ok levels) = prepared g (
      settle_levels around.disk config (tags_of mappings []) options g.store g.dataset
        (materialize_cohort around.show around.execute around.hash_cohort around.disk.join) levels
        (record { resolved = []; db = db }))

  abbrev pub settle_decided :
      List SourceMapping
      → Given
      → Result (List PlannedSource) × Preparing
      → Result SourcePreparation × Db
  settle_decided mappings g (err e, p) = (err e, p.db)
  settle_decided mappings g (ok planned, p) =
      settle_planned mappings g p.db (source_levels same planned)

  -- Both loops.
  unfoldable pub prepare_given :
      String → List SourceMapping → Given → Db → Result SourcePreparation × Db
  unfolding decide_sources settle_levels materialize_cohort
  prepare_given invocation_id mappings g db = settle_decided mappings g (
      decide_sources around config invocation_id mappings options g.store g.profile g.dataset
        mappings (record { scopes = []; db = db }))

  abbrev pub prepare_read : ExecutionPlan → Db → Result Given → Result SourcePreparation × Db
  prepare_read plan db (err e) = (err e, db)
  prepare_read plan db (ok g) = prepare_given plan.invocation_id plan.source_mappings g db

  unfoldable pub prepare_sources : ExecutionPlan → Db → Result SourcePreparation × Db
  unfolding read_options prepare_given
  prepare_sources plan db =
      prepare_read plan db (read_options config plan.source_mappings options now db)
