-- ===== src/Sources/Options.antt =====
-- orchestration.py: the options of a command. The duration and the size that a command gives stand
-- for what `parse_duration` and `parse_size` make of them, an error included.
use dbtv.Common.{ℕ, String, Bool, List, Option}
use dbtv.Errors.{Result}
use dbtv.Models.{SourceMode, FidelityMode}

pub record CommandOptions : Type 0 where
  pub command : String
  pub select : List String
  pub exclude : List String
  pub variables : Option String
  pub source_mode : SourceMode
  pub data_profile : Option String
  pub cache_ttl : Option (Result ℕ)
  pub max_rows : Option ℕ
  pub max_bytes : Option (Result ℕ)
  pub allow_full_source : Bool
  pub snapshot_id : Option String
  pub keep_snapshot : Bool
  pub fidelity : Option FidelityMode
  pub full_refresh : Bool
  pub interactive : Bool
  pub dataset_id : Option String
  pub capture_results : Bool
