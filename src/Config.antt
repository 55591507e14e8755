-- ===== src/Config.antt =====
-- config/schema.py: the settings that the modelled parts read. Sizes and durations stand for what
-- `parse_size` and `parse_duration` return: bytes and microseconds.
pub mod Whole
pub mod Validate
pub mod Tests
use dbtv.Common.{ℕ, String, Bool, List, Option}
use dbtv.Models.{SamplingStrategy, FidelityMode, Float}
use dbtv.Json.{Json}

pub record SourceSessionSettings : Type 0 where
  pub query_tag_prefix : String
  pub statement_timeout_seconds : ℕ
  pub login_timeout_seconds : ℕ
  pub network_timeout_seconds : ℕ
  pub timezone : String

pub record ExtractionSettings : Type 0 where
  pub parallel_sources : ℕ
  pub arrow_batch_rows : ℕ
  pub max_retries : ℕ
  pub retry_base_seconds : Float

pub record SourceSettings : Type 0 where
  pub connector : String
  pub credential_resolver : String
  pub session : SourceSessionSettings
  pub extraction : ExtractionSettings
  pub plugin : Json
  pub profile : Option String
  pub target : Option String
  pub identity : List (String × String)

pub record SourceRoute : Type 0 where
  pub select : String
  pub connection : String
  pub projection : Option (List String)

pub record SamplingRule : Type 0 where
  pub strategy : SamplingStrategy
  pub limit : Option ℕ
  pub predicate : Option String
  pub key : Option String
  pub rate : Option Float
  pub seed : Option ℕ
  pub deterministic : Bool

pub record SourceSamplingRule : Type 0 where
  pub select : String
  pub rule : SamplingRule

pub record CohortRule : Type 0 where
  pub select : String
  pub parent : String
  pub parent_key : String
  pub key : String
  pub max_keys : ℕ

pub record DataProfile : Type 0 where
  pub default : SamplingRule
  pub sources : List SourceSamplingRule
  pub cohorts : List CohortRule

pub record CompatibilitySettings : Type 0 where
  pub mode : FidelityMode
  pub install_shims : Bool
  pub allow_rules : List String
  pub warn_rules : List String
  pub deny_rules : List String

pub record PolicySettings : Type 0 where
  pub allow_full_source : Bool
  pub max_rows_per_source : ℕ
  pub max_estimated_bytes_per_run : ℕ
  pub max_extracted_bytes_per_run : ℕ
  pub max_workspace_bytes : ℕ
  pub minimum_free_disk : ℕ
  pub require_explicit_where_for_tags : List String
  pub deny_source_tags : List String
  pub max_cache_age_for_tags : List (String × ℕ)
  pub require_fidelity : Option FidelityMode
  pub cache_file_mode : String
  pub cache_directory_mode : String
