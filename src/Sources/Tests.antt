-- ===== src/Sources/Tests.antt =====
-- A child source and its parent, captured in two rounds.
use dbtv.Common.{
  ℕ, String, ◌≡◌, ◌⊎◌, ◌≤◌, ◌==◌, arith, Bool, true, false, length, List, [], ◌∷◌, Option, none,
  some, if◌then◌else◌, map, All,
}
use dbtv.Errors.{ok, err, config_error}
use dbtv.Models.{SnapshotAction}
use dbtv.Config.{SourceSettings}
use dbtv.Json.{null}
use dbtv.Sources.Planned.{PlannedSource, unique_id, source_levels}
use dbtv.Sources.Equality.{same_source, same_source-SameSource}
use dbtv.Sources.Layers.{AreLevels, source_levels_lem}
use dbtv.Sources.Ranked.{RanksParent, source_levels_ok}
use dbtv.Config.Tests.{config as routed_config, passes}
use dbtv.Sources.Prepare.{Routed, route_source}
use dbtv.Sources.Routes.{matching, IsRouted, route_source-routes}
use dbtv.Sources.Examples.{mapping}
use dbtv.Samples.{request, orders}

abbrev settings : SourceSettings
settings = record {
  connector = "parquet";
  credential_resolver = "none";
  session = record {
    query_tag_prefix = "dbtv";
    statement_timeout_seconds = 1;
    login_timeout_seconds = 1;
    network_timeout_seconds = 1;
    timezone = "UTC";
  };
  extraction = record {
    parallel_sources = 1;
    arrow_batch_rows = 1;
    max_retries = 0;
    retry_base_seconds = record { mantissa = 1; scale = 1 };
  };
  plugin = null;
  profile = none;
  target = none;
  identity = [];
}

abbrev planned : String → Option String → PlannedSource
planned id parent = record {
  connection_name = "default";
  settings = settings;
  decision = record {
    request = record request { source = record orders { unique_id = id } };
    action = SnapshotAction.refresh;
    reason = "snapshot missing";
    snapshot = none;
  };
  cohort = none;
  cohort_parent = parent;
  cohort_ready = false;
}

abbrev sources : List PlannedSource
sources = planned "items" (some "orders") ∷ planned "orders" none ∷ []

abbrev depth : String → ℕ
depth id = if id == "items" then 1 else 0

sources-ranked : All (RanksParent depth (map unique_id sources)) sources
sources-ranked = ((λ m. omega arith), (tt, tt))

source_levels_lem_example :
    (source_levels same_source sources ≡ err config_error)
    ⊎ ((ls : List (List PlannedSource)) × (source_levels same_source sources ≡ ok ls)
        × AreLevels sources ls)
source_levels_lem_example = source_levels_lem same_source same_source-SameSource sources

source_levels_ok_example :
    (ls : List (List PlannedSource)) × (source_levels same_source sources ≡ ok ls)
    × AreLevels sources ls
source_levels_ok_example =
    source_levels_ok same_source same_source-SameSource depth sources sources-ranked

abbrev any_name : String → String → Bool
any_name a b = true

route_source-routes_example :
    ((2 ≤ length (matching any_name routed_config mapping))
      × (route_source any_name routed_config mapping ≡ err config_error))
    ⊎ ((routed : Routed) × (route_source any_name routed_config mapping ≡ ok routed)
        × IsRouted routed_config (matching any_name routed_config mapping) routed)
route_source-routes_example =
    route_source-routes (λ s. s == "") any_name routed_config mapping passes
