-- ===== src/Config/Tests.antt =====
-- A configuration with one route.
use dbtv.Common.{◌≡◌, refl, true, false, ◌==◌, [], ◌∷◌, none, some, lookup}
use dbtv.Json.{null}
use dbtv.Models.{limit, strict}
use dbtv.Config.{SourceSettings, DataProfile}
use dbtv.Config.Whole.{DbtvConfig}
use dbtv.Config.Validate.{validate_references}

abbrev pub connection : SourceSettings
connection = record {
  connector = "parquet";
  credential_resolver = "none";
  session = record {
    query_tag_prefix = "dbtv";
    statement_timeout_seconds = 1;
    login_timeout_seconds = 1;
    network_timeout_seconds = 1;
    timezone = "UTC";
  };
  extraction = record {
    parallel_sources = 1;
    arrow_batch_rows = 1000;
    max_retries = 0;
    retry_base_seconds = record { mantissa = 1; scale = 1 };
  };
  plugin = null;
  profile = none;
  target = none;
  identity = [];
}

abbrev developer : DataProfile
developer = record {
  default = record {
    strategy = limit;
    limit = some 100000;
    predicate = none;
    key = none;
    rate = none;
    seed = none;
    deterministic = false;
  };
  sources = [];
  cohorts = [];
}

abbrev pub config : DbtvConfig
config = record {
  project = record {
    dbt_executable = "dbt";
    profile = none;
    production_target = some "prod";
    partial_parse = true;
    cache_parsing = true;
  };
  source = connection;
  connections = ("files", connection) ∷ [];
  routes = (record { select = "*"; connection = "files"; projection = some ("id" ∷ []) }) ∷ [];
  local_settings = record {
    database = ".dbtv/local.duckdb";
    schema_name = "dbtv_dev";
    threads = 1;
    memory_limit = 1;
    temp_directory = ".dbtv/tmp";
    preserve_identifier_case = true;
    max_temp_directory_size = 1;
    inspect_max_rows = 1;
  };
  cache = record {
    root = ".dbtv/cache";
    default_ttl = 1;
    compression = "zstd";
    row_group_target_bytes = 1;
    maximum_size = 1;
    retain_previous_snapshots = 2;
    integrity = "checksums";
  };
  data_profiles = ("developer", developer) ∷ [];
  default_data_profile = "developer";
  compatibility = record {
    mode = strict;
    install_shims = true;
    allow_rules = [];
    warn_rules = [];
    deny_rules = [];
  };
  policy = record {
    allow_full_source = false;
    max_rows_per_source = 1;
    max_estimated_bytes_per_run = 1;
    max_extracted_bytes_per_run = 1;
    max_workspace_bytes = 1;
    minimum_free_disk = 1;
    require_explicit_where_for_tags = [];
    deny_source_tags = [];
    max_cache_age_for_tags = [];
    require_fidelity = none;
    cache_file_mode = "0600";
    cache_directory_mode = "0700";
  };
  reporting = record { show_query_text = false; show_relation_names = true };
}

pub passes : validate_references (λ s. s == "") config ≡ true
unfolding validate_references lookup
passes = refl
