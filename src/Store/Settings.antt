-- ===== src/Store/Settings.antt =====
-- The settings of `ParquetSnapshotStore`, and what it reads of the disk.
use dbtv.Common.{ℕ, String, Bool, List, Option}
use dbtv.Models.{
  SourceRef, Relation, SnapshotRequest, CanonicalSchema, SourceVersion, SnapshotFile, Float,
}

pub data Integrity : Type 0 where
  metadata_only metadata_and_sizes checksums : Integrity

-- The attributes of the store that its decisions read; `now` is `datetime.now(UTC)`.
pub record Settings : Type 0 where
  pub ttl : ℕ
  pub now : ℕ
  pub integrity : Integrity
  pub retain_previous : ℕ
  pub maximum_size : ℕ

-- What `request_fingerprint` hashes: the provider, and the request without its query tag.
pub record RequestIdentity : Type 0 where
  pub provider : String
  pub request : SnapshotRequest

-- metadata.json, as `json.loads` returns it.
pub record RawSampling : Type 0 where
  pub strategy : String
  pub limit : Option ℕ
  pub predicate : Option String
  pub key : Option String
  pub rate : Option Float
  pub seed : Option ℕ

pub record RawMetadata : Type 0 where
  pub connection_scope : Option String
  pub snapshot_key : String
  pub request_fingerprint : String
  pub content_fingerprint : Option String
  pub source : SourceRef
  pub provider_name : String
  pub connector_version : Option String
  pub remote_relation : Relation
  pub projection : Option (List String)
  pub sampling : RawSampling
  pub fidelity : String
  pub source_version : Option SourceVersion
  pub schema : CanonicalSchema
  pub created_at : ℕ
  pub completed_at : ℕ
  pub expires_at : Option ℕ
  pub row_count : ℕ
  pub byte_count : ℕ
  pub files : List SnapshotFile
  pub query_id : Option String
  pub query_tag : Option String
  pub pinned : Option Bool

-- observation.json: `aware` says that both moments name their time zone.
pub record Receipt : Type 0 where
  pub snapshot_key : String
  pub verified_at : ℕ
  pub expires_at : ℕ
  pub aware : Bool

pub data Observation : Type 0 where
  absent unreadable : Observation
  observed : Receipt → Observation

-- What `pathlib`, the file system, `json` and `hashlib` answer: the joined path, the resolved path,
-- the tests on paths, the parsed files and the digests.
pub record Disk : Type 0 where
  pub join : String → String → String
  pub parent : String → String
  pub resolve : String → String
  pub is_relative_to : String → String → Bool
  pub is_file : String → Bool
  pub size : String → ℕ
  pub sha256_file : String → String
  pub read_metadata : String → Option RawMetadata
  pub read_observation : String → Observation
  pub hash_request : RequestIdentity → String
