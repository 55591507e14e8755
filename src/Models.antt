-- ===== src/Models.antt =====
-- core/models.py: the values that the parts of the program exchange.
--
-- A text is a `String`, a path too. A moment is the number of microseconds since the epoch: the
-- program writes it by `isoformat` in UTC, in which the order of texts is that of moments. A
-- fraction such as a sampling rate is a finite float, which is `mantissa / 2 ^ scale`. Of the free-form
-- mappings `config` and `meta` only the materialization is kept, and texts for the reader, such as the
-- messages of findings, are left out.
pub mod Runs
use dbtv.Common.{ℕ, String, Bool, List, Option, none, some}

pub data ResourceType : Type 0 where
  model source test seed snapshot analysis exposure metric semantic_model unknown : ResourceType

pub record SourceRef : Type 0 where
  pub unique_id : String
  pub package_name : String
  pub source_name : String
  pub table_name : String

pub record Relation : Type 0 where
  pub catalog : Option String
  pub schema : String
  pub identifier : String
  pub quoting : List (String × Bool)

pub record NormalizedNode : Type 0 where
  pub unique_id : String
  pub name : String
  pub resource_type : ResourceType
  pub package_name : String
  pub path : Option String
  pub depends_on_nodes : List String
  pub relation : Option Relation
  pub materialized : Option String
  pub source_name : Option String
  pub raw_code : Option String
  pub tags : List String

-- The property `source_ref`.
unfoldable pub source_ref : NormalizedNode → Option SourceRef
source_ref node = elim node.resource_type [
  | source ↦ elim node.source_name [
    | none ↦ none
    | some s ↦ some (record {
      unique_id = node.unique_id;
      package_name = node.package_name;
      source_name = s;
      table_name = node.name;
    })
  ]
  | _ ↦ none
]

pub record NormalizedManifest : Type 0 where
  pub schema_url : String
  pub dbt_version : String
  pub generated_at : Option String
  pub nodes : List (String × NormalizedNode)

pub record SourceMapping : Type 0 where
  pub source : SourceRef
  pub production_relation : Relation
  pub local_relation : Relation
  pub tags : List String

pub record CompatibilityFinding : Type 0 where
  pub rule_id : String
  pub severity : String
  pub node_id : Option String
  pub path : Option String
  pub may_continue : Bool

pub data SamplingStrategy : Type 0 where
  full limit where_ where_limit hash bernoulli : SamplingStrategy

pub data FidelityMode : Type 0 where
  strict warn lossy : FidelityMode

pub data SourceMode : Type 0 where
  auto refresh cached offline : SourceMode

pub record Float : Type 0 where
  pub mantissa : ℕ
  pub scale : ℕ

pub record SamplingSpec : Type 0 where
  pub strategy : SamplingStrategy
  pub limit : Option ℕ
  pub predicate : Option String
  pub key : Option String
  pub rate : Option Float
  pub seed : Option ℕ

pub record CanonicalField : Type 0 where
  pub name : String
  pub arrow_type : String
  pub nullable : Bool
  pub provider_type : Option String

pub record CanonicalSchema : Type 0 where
  pub fields : List CanonicalField
  pub fingerprint : String

pub record SourceVersion : Type 0 where
  pub value : String
  pub observed_at : String

pub record SnapshotRequest : Type 0 where
  pub source : SourceRef
  pub relation : Relation
  pub sampling : SamplingSpec
  pub fidelity : FidelityMode
  pub projection : Option (List String)
  pub query_tag : Option String
  pub connection_scope : String

pub record SnapshotFile : Type 0 where
  pub path : String
  pub size : ℕ
  pub checksum : Option String

pub record DatasetSnapshot : Type 0 where
  pub snapshot_key : String
  pub request_fingerprint : String
  pub content_fingerprint : String
  pub source : SourceRef
  pub provider : String
  pub remote_relation : Relation
  pub sampling : SamplingSpec
  pub fidelity : FidelityMode
  pub projection : Option (List String)
  pub schema : CanonicalSchema
  pub source_version : Option SourceVersion
  pub root : String
  pub files : List SnapshotFile
  pub created_at : ℕ
  pub completed_at : ℕ
  pub expires_at : Option ℕ
  pub row_count : ℕ
  pub byte_count : ℕ
  pub query_id : Option String
  pub query_tag : Option String
  pub provider_version : Option String
  pub pinned : Bool
  pub connection_scope : String
  pub verified_at : Option ℕ

pub data SnapshotAction : Type 0 where
  reuse refresh missing : SnapshotAction

pub record SnapshotDecision : Type 0 where
  pub request : SnapshotRequest
  pub action : SnapshotAction
  pub reason : String
  pub snapshot : Option DatasetSnapshot

pub record SourceBinding : Type 0 where
  pub mapping : SourceMapping
  pub snapshot : DatasetSnapshot
