-- ===== src/Store/RoundTrip.antt =====
-- What `_snapshot_from_metadata` reads of what `_metadata` wrote.
use dbtv.Common.{String, ◌≡◌, refl, none, some}
use dbtv.Models.{
  DatasetSnapshot, SamplingStrategy, full, limit, where_, where_limit, hash, bernoulli,
  FidelityMode, strict, warn, lossy,
}
use dbtv.Store.Metadata.{
  strategy_value, sampling_strategy, fidelity_value, fidelity_mode, metadata, projection_of,
  snapshot_from_metadata,
}

sampling_strategy-value : (s : SamplingStrategy) → sampling_strategy (strategy_value s) ≡ some s
unfolding sampling_strategy strategy_value
sampling_strategy-value full = refl
sampling_strategy-value limit = refl
sampling_strategy-value where_ = refl
sampling_strategy-value where_limit = refl
sampling_strategy-value hash = refl
sampling_strategy-value bernoulli = refl

fidelity_mode-value : (f : FidelityMode) → fidelity_mode (fidelity_value f) ≡ some f
unfolding fidelity_mode fidelity_value
fidelity_mode-value strict = refl
fidelity_mode-value warn = refl
fidelity_mode-value lossy = refl

-- Reading back the metadata of a snapshot gives the snapshot at the directory that it is read from,
-- without the moment of its last verification, which the receipt holds, and with an empty
-- projection read as none.
pub snapshot_from_metadata-metadata :
    (s : DatasetSnapshot) (root : String)
    → snapshot_from_metadata (metadata s) root
      ≡ some (record s { root = root; verified_at = none; projection = projection_of s.projection })
unfolding snapshot_from_metadata metadata
snapshot_from_metadata-metadata s root = rw (
  sampling_strategy-value s.sampling.strategy,
  fidelity_mode-value s.fidelity,
  snapshot_from_metadata,
)
