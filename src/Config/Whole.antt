-- ===== src/Config/Whole.antt =====
-- config/schema.py: the configuration as a whole. Fields of a single allowed value are left out.
use dbtv.Common.{ℕ, String, Bool, List, Option}
use dbtv.Config.{SourceSettings, SourceRoute, DataProfile, CompatibilitySettings, PolicySettings}

pub record ProjectSettings : Type 0 where
  pub dbt_executable : String
  pub profile : Option String
  pub production_target : Option String
  pub partial_parse : Bool
  pub cache_parsing : Bool

pub record LocalSettings : Type 0 where
  pub database : String
  pub schema_name : String
  pub threads : ℕ
  pub memory_limit : ℕ
  pub temp_directory : String
  pub preserve_identifier_case : Bool
  pub max_temp_directory_size : ℕ
  pub inspect_max_rows : ℕ

pub record CacheSettings : Type 0 where
  pub root : String
  pub default_ttl : ℕ
  pub compression : String
  pub row_group_target_bytes : ℕ
  pub maximum_size : ℕ
  pub retain_previous_snapshots : ℕ
  pub integrity : String

pub record ReportingSettings : Type 0 where
  pub show_query_text : Bool
  pub show_relation_names : Bool

pub record DbtvConfig : Type 0 where
  pub project : ProjectSettings
  pub source : SourceSettings
  pub connections : List (String × SourceSettings)
  pub routes : List SourceRoute
  pub local_settings : LocalSettings
  pub cache : CacheSettings
  pub data_profiles : List (String × DataProfile)
  pub default_data_profile : String
  pub compatibility : CompatibilitySettings
  pub policy : PolicySettings
  pub reporting : ReportingSettings

-- What `pathlib` answers.
pub record Paths : Type 0 where
  pub is_absolute : String → Bool
  pub resolve : String → String
  pub join : String → String → String

-- `_resolve`.
unfoldable pub resolved : Paths → String → String → String
resolved paths project_dir path = elim (paths.is_absolute path) [
  | Bool.true ↦ paths.resolve path
  | Bool.false ↦ paths.resolve (paths.join project_dir path)
]

unfoldable pub resolve_paths : Paths → String → DbtvConfig → DbtvConfig
unfolding resolved
resolve_paths paths project_dir c = record c {
  local_settings = record c.local_settings {
    database = resolved paths project_dir c.local_settings.database;
    temp_directory = resolved paths project_dir c.local_settings.temp_directory;
  };
  cache = record c.cache { root = resolved paths project_dir c.cache.root };
}
