-- ===== src/Sources/Examples.antt =====
-- Preparations of one source, whose snapshot is in the index.
use dbtv.Common.{
  ◌≡◌, ◌≢◌, refl, Bool, true, false, ◌==◌, [], ◌∷◌, none, some, All, keep, lookup, insert,
  first_of_test, take_text, member,
}
use dbtv.Errors.{ok}
use dbtv.Models.{offline, SnapshotAction, SourceMapping}
use dbtv.Models.Runs.{ExecutionPlan}
use dbtv.Config.Whole.{DbtvConfig}
use dbtv.Config.Tests.{config}
use dbtv.Policy.{apply_max_rows, resolve_sampling, intersects}
use dbtv.State.{active_snapshot, latest_first, place}
use dbtv.Store.{
  decide, conclude, fetch, usable, load, validate, validate_files, validate_file, checksums,
  sampling_strategy, strategy_value, fidelity_mode, fidelity_value, pick_record,
  request_fingerprint, is_expired, metadata, snapshot_from_metadata,
}
use dbtv.Store.Tests.{disk}
use dbtv.Samples.{orders, remote, index, request, sampling, captured}
use dbtv.Sources.Options.{CommandOptions}
use dbtv.Sources.Prepare.{Surroundings}
use dbtv.Sources.Planned.{PlannedSource, unique_id, source_levels, levels}
use dbtv.Sources.Settle.{tags_of, check_ages}
use dbtv.Sources.Preparation.{SourcePreparation, prepare_sources, capped_ttl}
use dbtv.Sources.Scope.{source_matches, connection_scope, public_values}
use dbtv.Sources.Promises.{AllowedSource, prepare_sources-local_mode, prepare_sources-Allowed}

abbrev pub mapping : SourceMapping
mapping = record {
  source = orders;
  production_relation = remote;
  local_relation = remote;
  tags = "daily" ∷ [];
}

abbrev pub plan : ExecutionPlan
plan = record {
  invocation_id = "run";
  project_dir = "/shop";
  project_name = "shop";
  production_target = "prod";
  local_target = "dbtv";
  selected_ids = [];
  local_selected_ids = [];
  source_mappings = mapping ∷ [];
  findings = [];
  production_manifest_schema = "v12";
  local_manifest_schema = "v12";
  project_fingerprint = "project";
  plan_hash = "plan";
}

abbrev pub same : PlannedSource → PlannedSource → Bool
same a b = unique_id a == unique_id b

abbrev pub options : CommandOptions
options = record {
  command = "run";
  select = [];
  exclude = [];
  variables = none;
  source_mode = offline;
  data_profile = none;
  cache_ttl = none;
  max_rows = some 5;
  max_bytes = none;
  allow_full_source = false;
  snapshot_id = none;
  keep_snapshot = false;
  fidelity = none;
  full_refresh = false;
  interactive = true;
  dataset_id = none;
  capture_results = false;
}

abbrev pub settings : DbtvConfig
settings = record config {
  source = record config.source { connector = "postgres" };
  routes = [];
  policy = record config.policy {
    max_rows_per_source = 10;
    max_cache_age_for_tags = ("daily", 100) ∷ [];
  };
}

abbrev pub around : Surroundings
around = record {
  env = record {
    read_output = λ profile target. none;
    match_env_var = λ s. none;
    has_jinja = λ s. false;
    variables = [];
    sha256_value = λ s. "scope";
  };
  fnmatchcase = λ value pattern. value == pattern;
  locate = λ path. "/data";
  disk = disk true;
  show = λ n. "1";
  execute = λ query parameters. none;
  hash_cohort = λ identity. "cohort";
  project_profile = "shop";
}

abbrev pub preparation : SourcePreparation
preparation = record {
  store = record {
    ttl = 1;
    now = 20;
    integrity = checksums;
    retain_previous = 2;
    maximum_size = 1;
  };
  sources =
      (record {
        connection_name = "default";
        settings = settings.source;
        decision = record {
          request = record request {
            sampling = record sampling { limit = some 5 };
            query_tag = some "dbtv/run/source.shop.raw.orders";
            connection_scope = "scope";
          };
          action = SnapshotAction.reuse;
          reason = "valid committed snapshot";
          snapshot =
              some (record captured {
                projection = none;
                verified_at = some 12;
                expires_at = some 60;
              });
        };
        cohort = none;
        cohort_parent = none;
        cohort_ready = false;
      })
      ∷ [];
}

pub prepares : prepare_sources around same settings options 20 plan index ≡ (ok preparation, index)
unfolding prepare_sources capped_ttl lookup insert tags_of check_ages source_levels keep decide
    conclude fetch usable load validate validate_files validate_file metadata snapshot_from_metadata
    sampling_strategy strategy_value fidelity_mode fidelity_value first_of_test pick_record
    request_fingerprint active_snapshot latest_first place is_expired take_text intersects member
    source_matches resolve_sampling connection_scope public_values apply_max_rows levels
prepares = refl

prepare_sources-local_mode_example :
    All (λ s. s.decision.action ≢ SnapshotAction.refresh) preparation.sources
prepare_sources-local_mode_example =
    prepare_sources-local_mode around same settings options 20 plan index preparation index refl
      prepares

prepare_sources-Allowed_example :
    All
      (AllowedSource (disk true) settings (tags_of (mapping ∷ []) []) options preparation.store)
      preparation.sources
prepare_sources-Allowed_example =
    prepare_sources-Allowed around same settings options 20 plan index preparation index prepares
