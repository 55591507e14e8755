-- ===== src/Sources/Prepare.antt =====
-- sources.py: `prepare_sources` up to the decisions of its first loop. `locate` turns a configured path
-- into the text of the resolved one. A plugin that is no mapping, which the configuration excludes,
-- and a missing key of a dictionary are errors of the program.
use dbtv.Common.{
  ℕ, String, Bool, true, false, not, ◌&&◌, ◌==◌, List, [], ◌∷◌, Option, none, some, if◌then◌else◌,
  keep, lookup, insert, take_text,
}
use Prim.Native.String.{◌++◌}
use dbtv.Errors.{Result, ok, err, config_error, policy_error, internal_error, require, ◌>>=◌, ◌>>◌}
use dbtv.Errors.Calls.{continue}
use dbtv.Json.{Json, object, text, Fields, end, field}
use dbtv.Models.{
  SourceMapping, SourceMode, offline, SamplingSpec, FidelityMode, SnapshotRequest, where_,
  SnapshotDecision,
}
use dbtv.Config.{SourceSettings, DataProfile, CohortRule}
use dbtv.Config.Whole.{DbtvConfig}
use dbtv.Policy.{resolve_sampling, apply_max_rows, evaluate_sampling, intersects}
use dbtv.State.{Db, Payload}
use dbtv.Store.{StoreSettings, Disk, decide}
use dbtv.Sources.Planned.{PlannedSource}
use dbtv.Sources.Options.{CommandOptions}
use dbtv.Sources.Cohorts.{KeyValue, CohortIdentity}
use dbtv.Sources.Scope.{Environment, source_matches, connection_scope, or_text}

-- `plugin.get("tables")`, and `plugin["tables"] = ...`.
unfoldable pub get_field : String → Fields → Option Json
get_field k end = none
get_field k (field j v rest) = if j == k then some v else get_field k rest

unfoldable pub set_field : String → Json → Fields → Fields
set_field k v end = field k v end
set_field k v (field j w rest) = if j == k then field j v rest else field j w (set_field k v rest)

unfoldable pub located : (Json → String) → Fields → Fields
located locate end = end
located locate (field k v rest) = field k (text (locate v)) (located locate rest)

abbrev pub locate_tables : (Json → String) → Fields → Option Json → Result Json
locate_tables locate plugin none = ok (object (set_field "tables" (object end) plugin))
locate_tables locate plugin (some (object tables)) =
    ok (object (set_field "tables" (object (located locate tables)) plugin))
locate_tables locate plugin (some _) = err config_error

abbrev pub locate_plugin : (Json → String) → Json → Result Json
locate_plugin locate (object plugin) = locate_tables locate plugin (get_field "tables" plugin)
locate_plugin locate _ = err internal_error

-- The paths of local files, which are made absolute.
unfoldable pub normalized : (Json → String) → SourceSettings → Result SourceSettings
unfolding get_field set_field located
normalized locate settings =
    if settings.connector == "parquet"
    then (locate_plugin locate settings.plugin >>= λ plugin.
        ok (record settings { plugin = plugin }))
    else ok settings

-- The name, the settings and the projection that the routes give a source.
pub record Routed : Type 0 where
  pub name : String
  pub settings : SourceSettings
  pub projection : Option (List String)

abbrev pub or_no_columns : Option (List String) → Option (List String)
or_no_columns (some []) = none
or_no_columns p = p

unfoldable pub route_source : (String → String → Bool) → DbtvConfig → SourceMapping → Result Routed
route_source fnmatchcase config mapping =
    elim (keep (λ r. source_matches fnmatchcase r.select mapping) config.routes) [
      | [] ↦ ok (record { name = "default"; settings = config.source; projection = none })
      | route ∷ rest ↦ elim rest [
        | second ∷ more ↦ err config_error
        | [] ↦ elim (lookup route.connection config.connections) [
          | none ↦ err internal_error
          | some settings ↦ ok (record {
            name = route.connection;
            settings = settings;
            projection = or_no_columns route.projection;
          })
        ]
      ]
    ]

-- The sampling of a source, and the cohort with its parent, if a rule gives it one.
pub record Sampled : Type 0 where
  pub sampling : SamplingSpec
  pub cohort : Option CohortRule
  pub parent : Option String

abbrev pub has_predicate : SamplingSpec → Bool
has_predicate s = not (or_text s.predicate "" == "")

abbrev pub cohort_sampling : SamplingSpec → SamplingSpec
cohort_sampling s = record {
  strategy = where_;
  limit = none;
  predicate = some (or_text s.predicate "TRUE");
  key = none;
  rate = none;
  seed = none;
}

module _ (fnmatchcase : String → String → Bool) (config : DbtvConfig)
    (mappings : List SourceMapping) where
  unfoldable pub cohort_parent_of : CohortRule → Result String
  cohort_parent_of rule = elim (keep (λ m. source_matches fnmatchcase rule.parent m) mappings) [
    | [] ↦ err config_error
    | m ∷ rest ↦ elim rest [ [] ↦ ok m.source.unique_id | second ∷ more ↦ err config_error ]
  ]

  abbrev pub in_cohort : SourceMapping → SamplingSpec → CohortRule → Result Sampled
  in_cohort mapping sampling rule = cohort_parent_of rule >>= λ parent.
      require
        (not (
          intersects mapping.tags config.policy.require_explicit_where_for_tags
          && not (has_predicate sampling)))
        policy_error
      >> ok
          (record { sampling = cohort_sampling sampling; cohort = some rule; parent = some parent })

  unfoldable pub sample_source : DataProfile → Option ℕ → SourceMapping → Result Sampled
  unfolding cohort_parent_of
  sample_source profile max_rows mapping =
      let sampling =
        apply_max_rows (resolve_sampling fnmatchcase profile mapping.source) max_rows in
      elim (keep (λ c. source_matches fnmatchcase c.select mapping) profile.cohorts) [
        | [] ↦ ok (record { sampling = sampling; cohort = none; parent = none })
        | rule ∷ rest ↦ elim rest [
          | [] ↦ in_cohort mapping sampling rule
          | second ∷ more ↦ err config_error
        ]
      ]

-- The local variables of the first loop, with the index.
pub record Preparing : Type 0 where
  pub scopes : List (String × String)
  pub db : Db

-- A dataset that is given is read as in the offline mode.
abbrev pub mode_of : Option Payload → CommandOptions → SourceMode
mode_of none options = options.source_mode
mode_of (some payload) options = offline

-- The snapshot that the options or the dataset name for a source.
abbrev pub named_snapshot : Option Payload → CommandOptions → String → Option String
named_snapshot none options id = options.snapshot_id
named_snapshot (some payload) options id = lookup id payload.snapshots

abbrev pub is_some : Option String → Bool
is_some none = false
is_some (some id) = true

abbrev pub is_covered : Option Payload → String → Bool
is_covered none id = true
is_covered (some payload) id = is_some (lookup id payload.snapshots)

abbrev pub decide_for :
    Disk
    → StoreSettings
    → CommandOptions
    → Option Payload
    → SnapshotRequest
    → SourceSettings
    → Db
    → SnapshotDecision × Db
decide_for disk store options dataset request settings db =
    decide store disk request settings.connector (mode_of dataset options)
      (named_snapshot dataset options request.source.unique_id) db

-- What the calls of other libraries and of the rest of the program answer.
pub record Surroundings : Type 0 where
  pub env : Environment
  pub fnmatchcase : String → String → Bool
  pub locate : Json → String
  pub disk : Disk
  pub show : ℕ → String
  pub execute : String → List String → Option (List KeyValue)
  pub hash_cohort : CohortIdentity → String
  pub project_profile : String

-- What the first loop knows of a source when it asks for a decision.
pub record Requested : Type 0 where
  pub routed : Routed
  pub sampled : Sampled
  pub request : SnapshotRequest

module _ (around : Surroundings) (config : DbtvConfig) (invocation_id : String)
    (mappings : List SourceMapping) (options : CommandOptions) (store : StoreSettings)
    (profile : DataProfile) (dataset : Option Payload) where
  abbrev pub fidelity_of : FidelityMode
  fidelity_of = elim options.fidelity [ none ↦ config.compatibility.mode | some f ↦ f ]

  -- `scopes[name]`, computed if it is not there yet.
  unfoldable pub scope_of :
      String → SourceSettings → List (String × String) → Result (String × List (String × String))
  scope_of name settings scopes = elim (lookup name scopes) [
    | some scope ↦ ok (scope, scopes)
    | none ↦ connection_scope around.env name settings around.project_profile config >>= λ scope.
        ok (scope, insert name scope scopes)
  ]

  abbrev pub request_of : SourceMapping → Routed → Sampled → String → SnapshotRequest
  request_of mapping routed sampled scope = record {
    source = mapping.source;
    relation = mapping.production_relation;
    sampling = sampled.sampling;
    fidelity = fidelity_of;
    projection = routed.projection;
    query_tag = some (
        take_text 256 (
          routed.settings.session.query_tag_prefix ++ "/" ++ invocation_id ++ "/"
          ++ mapping.source.unique_id));
    connection_scope = scope;
  }

  -- One round of the first loop, up to the request.
  unfoldable pub request_source :
      SourceMapping → List (String × String) → Result (Requested × List (String × String))
  unfolding route_source normalized scope_of sample_source evaluate_sampling
  request_source mapping scopes = route_source around.fnmatchcase config mapping >>= λ routed.
      normalized around.locate routed.settings >>= λ settings.
      scope_of routed.name settings scopes >>= λ scoped.
      sample_source around.fnmatchcase config mappings profile options.max_rows mapping
      >>= λ sampled.
          evaluate_sampling config.policy options.allow_full_source sampled.sampling mapping.tags
            (some fidelity_of)
          >> require (is_covered dataset mapping.source.unique_id) config_error
          >> ok (
            record {
              routed = record routed { settings = settings };
              sampled = sampled;
              request = request_of mapping routed sampled scoped.0;
            },
            scoped.1,
          )

  abbrev pub plan_request : Requested → SnapshotDecision → PlannedSource
  plan_request asked decision = record {
    connection_name = asked.routed.name;
    settings = asked.routed.settings;
    decision = decision;
    cohort = asked.sampled.cohort;
    cohort_parent = asked.sampled.parent;
    cohort_ready = false;
  }

  -- The first loop.
  abbrev pub decide_asked :
      Preparing → Result (Requested × List (String × String)) → Result PlannedSource × Preparing
  decide_asked p (err e) = (err e, p)
  decide_asked p (ok (asked, scopes)) =
      let (decision, db) =
        decide_for around.disk store options dataset asked.request asked.routed.settings p.db in
      (ok (plan_request asked decision), record { scopes = scopes; db = db })

  unfoldable pub decide_source : SourceMapping → Preparing → Result PlannedSource × Preparing
  unfolding request_source
  decide_source mapping p = decide_asked p (request_source mapping p.scopes)

  unfoldable pub decide_sources :
      List SourceMapping → Preparing → Result (List PlannedSource) × Preparing
  unfolding decide_source
  decide_sources [] p = (ok [], p)
  decide_sources (mapping ∷ rest) p =
      continue (decide_source mapping p)
        (λ source p'. continue (decide_sources rest p') (λ later p''. (ok (source ∷ later), p'')))
