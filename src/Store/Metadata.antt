-- ===== src/Store/Metadata.antt =====
-- snapshot/store.py: `_metadata` and `_snapshot_from_metadata`.
use dbtv.Common.{String, false, List, [], ◌∷◌, Option, none, some, ◌==◌, if◌then◌else◌}
use dbtv.Models.{
  DatasetSnapshot, SamplingSpec, SamplingStrategy, full, limit, where_, where_limit, hash,
  bernoulli, FidelityMode, strict, warn, lossy,
}
use dbtv.Store.Settings.{RawSampling, RawMetadata}

-- The values of the two enumerations, and their constructors from a value.
unfoldable pub strategy_value : SamplingStrategy → String
strategy_value full = "full"
strategy_value limit = "limit"
strategy_value where_ = "where"
strategy_value where_limit = "where_limit"
strategy_value hash = "hash"
strategy_value bernoulli = "bernoulli"

unfoldable pub sampling_strategy : String → Option SamplingStrategy
sampling_strategy s =
    if s == "full"
    then some full
    else if s == "limit"
    then some limit
    else if s == "where"
    then some where_
    else if s == "where_limit"
    then some where_limit
    else if s == "hash"
    then some hash
    else if s == "bernoulli"
    then some bernoulli
    else none

unfoldable pub fidelity_value : FidelityMode → String
fidelity_value strict = "strict"
fidelity_value warn = "warn"
fidelity_value lossy = "lossy"

unfoldable pub fidelity_mode : String → Option FidelityMode
fidelity_mode s =
    if s == "strict"
    then some strict
    else if s == "warn"
    then some warn
    else if s == "lossy"
    then some lossy
    else none

-- `_metadata`: what metadata.json holds of a snapshot.
unfoldable pub metadata : DatasetSnapshot → RawMetadata
metadata s = record {
  connection_scope = some s.connection_scope;
  snapshot_key = s.snapshot_key;
  request_fingerprint = s.request_fingerprint;
  content_fingerprint = some s.content_fingerprint;
  source = s.source;
  provider_name = s.provider;
  connector_version = s.provider_version;
  remote_relation = s.remote_relation;
  projection = s.projection;
  sampling = record {
    strategy = strategy_value s.sampling.strategy;
    limit = s.sampling.limit;
    predicate = s.sampling.predicate;
    key = s.sampling.key;
    rate = s.sampling.rate;
    seed = s.sampling.seed;
  };
  fidelity = fidelity_value s.fidelity;
  source_version = s.source_version;
  schema = s.schema;
  created_at = s.created_at;
  completed_at = s.completed_at;
  expires_at = s.expires_at;
  row_count = s.row_count;
  byte_count = s.byte_count;
  files = s.files;
  query_id = s.query_id;
  query_tag = s.query_tag;
  pinned = some s.pinned;
}

-- `raw.get(key, default)`, and an empty projection read as none.
abbrev pub get_or {ℓ} : {A : Type ℓ} → Option A → A → A
get_or none d = d
get_or (some a) d = a

abbrev pub projection_of : Option (List String) → Option (List String)
projection_of none = none
projection_of (some []) = none
projection_of (some (c ∷ cs)) = some (c ∷ cs)

abbrev pub sampling_of : RawSampling → SamplingStrategy → SamplingSpec
sampling_of raw strategy = record {
  strategy = strategy;
  limit = raw.limit;
  predicate = raw.predicate;
  key = raw.key;
  rate = raw.rate;
  seed = raw.seed;
}

abbrev pub snapshot_of : RawMetadata → String → SamplingStrategy → FidelityMode → DatasetSnapshot
snapshot_of raw root strategy fidelity = record {
  snapshot_key = raw.snapshot_key;
  request_fingerprint = raw.request_fingerprint;
  content_fingerprint = get_or raw.content_fingerprint raw.snapshot_key;
  source = raw.source;
  provider = raw.provider_name;
  remote_relation = raw.remote_relation;
  sampling = sampling_of raw.sampling strategy;
  fidelity = fidelity;
  projection = projection_of raw.projection;
  schema = raw.schema;
  source_version = raw.source_version;
  root = root;
  files = raw.files;
  created_at = raw.created_at;
  completed_at = raw.completed_at;
  expires_at = raw.expires_at;
  row_count = raw.row_count;
  byte_count = raw.byte_count;
  query_id = raw.query_id;
  query_tag = raw.query_tag;
  provider_version = raw.connector_version;
  pinned = get_or raw.pinned false;
  connection_scope = get_or raw.connection_scope "";
  verified_at = none;
}

-- `_snapshot_from_metadata`; `none` is the ValueError of a value that an enumeration lacks.
unfoldable pub snapshot_from_metadata : RawMetadata → String → Option DatasetSnapshot
snapshot_from_metadata raw root = elim (sampling_strategy raw.sampling.strategy) [
  | none ↦ none
  | some strategy ↦ elim (fidelity_mode raw.fidelity) [
    | none ↦ none
    | some fidelity ↦ some (snapshot_of raw root strategy fidelity)
  ]
]
