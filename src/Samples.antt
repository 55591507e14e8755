-- ===== src/Samples.antt =====
-- Small values for the runs: a source, its snapshot, and an index with two records of it.
use dbtv.Common.{String, ℕ, Bool, true, false, [], ◌∷◌, none, some, refl}
use dbtv.Models.{
  SourceRef, Relation, SamplingSpec, limit, strict, SnapshotFile, SnapshotRequest, DatasetSnapshot,
}
use dbtv.State.{SnapshotIndexRecord, Payload, Db, committed}
use dbtv.State.Valid.{IsValid}

abbrev pub orders : SourceRef
orders = record {
  unique_id = "source.shop.raw.orders";
  package_name = "shop";
  source_name = "raw";
  table_name = "orders";
}

abbrev pub remote : Relation
remote = record { catalog = some "prod"; schema = "raw"; identifier = "orders"; quoting = [] }

abbrev pub sampling : SamplingSpec
sampling = record {
  strategy = limit;
  limit = some 100;
  predicate = none;
  key = none;
  rate = none;
  seed = none;
}

abbrev pub part : SnapshotFile
part = record { path = "data.parquet"; size = 10; checksum = some "sha" }

abbrev pub request : SnapshotRequest
request = record {
  source = orders;
  relation = remote;
  sampling = sampling;
  fidelity = strict;
  projection = none;
  query_tag = none;
  connection_scope = "default";
}

abbrev pub captured : DatasetSnapshot
captured = record {
  snapshot_key = "new";
  request_fingerprint = "print";
  content_fingerprint = "content";
  source = orders;
  provider = "parquet";
  remote_relation = remote;
  sampling = sampling;
  fidelity = strict;
  projection = some [];
  schema = record { fields = []; fingerprint = "schema" };
  source_version = none;
  root = "/cache/new";
  files = part ∷ [];
  created_at = 7;
  completed_at = 8;
  expires_at = some 50;
  row_count = 3;
  byte_count = 10;
  query_id = none;
  query_tag = none;
  provider_version = none;
  pinned = false;
  connection_scope = "default";
  verified_at = some 9;
}

abbrev pub row : String → ℕ → Bool → SnapshotIndexRecord
row key created_at active = record {
  snapshot_key = key;
  request_fingerprint = "print";
  source_unique_id = "source.shop.raw.orders";
  state = committed;
  created_at = created_at;
  expires_at = some 50;
  row_count = 3;
  byte_count = 10;
  metadata_path = "/cache/meta";
  active = active;
  pinned = false;
}

-- The index after two captures of the source, of which the first is active.
abbrev pub index : Db
index = record {
  snapshots = row "old" 5 true ∷ row "new" 7 false ∷ [];
  datasets = [];
  dataset_snapshots =
      (record {
        dataset_id = "d0";
        source_unique_id = "source.shop.raw.orders";
        snapshot_key = "old";
      })
      ∷ [];
  runs = [];
  bindings = [];
}

pub index-IsValid : IsValid index.snapshots
index-IsValid = record {
  apart = ((record { keys = refl; active = refl }, tt), (tt, tt));
  sound = (refl, (refl, tt));
}

abbrev pub payload : Payload
payload = record {
  format_version = 1;
  snapshots = ("source.shop.raw.orders", "new") ∷ [];
  source_scopes = [];
  dataset_id = "d1";
  created_by_run = "run";
  project_fingerprint = "project";
}
