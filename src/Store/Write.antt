-- ===== src/Store/Write.antt =====
-- snapshot/store.py and snapshot/keys.py: `write`, `pin` and `snapshot_key`. The store's lock on the
-- source and the size of row groups are left out. `Writer` holds what the file system, `pyarrow` and
-- `hashlib` answer; an operation that raises OSError answers none, or false. The index is not changed
-- by others while a snapshot is written.
use dbtv.Common.{
  ℕ, suc, ◌+◌, String, Bool, true, false, not, List, [], ◌∷◌, ◌++◌, Option, none, some,
  if◌then◌else◌, ltb,
}
use dbtv.Errors.{Result, ok, err, cache_error, extraction_error, require, ◌>>=◌, ◌>>◌}
use dbtv.Models.{
  SnapshotRequest, DatasetSnapshot, SnapshotFile, SourceVersion, CanonicalField, CanonicalSchema,
}
use dbtv.State.{Db, set_pinned}
use dbtv.Store.Settings.{Settings, Disk, Receipt}
use dbtv.Store.Decide.{request_fingerprint, checks_sum}

-- A batch with its schema, whose fields are in the canonical form, and the rows and bytes it holds.
pub record ExtractionBatch : Type 0 where
  pub rows : ℕ
  pub bytes : ℕ
  pub schema : List CanonicalField
  pub query_id : Option String

-- What `snapshot_key` hashes.
pub record KeyIdentity : Type 0 where
  pub request_fingerprint : String
  pub schema : CanonicalSchema
  pub source_version : Option String
  pub content_fingerprint : String

pub record Part : Type 0 where
  pub path : String
  pub size : ℕ
  pub checksum : String

-- How `data_dir.mkdir(parents=True)` ends: it may raise after the pending directory, its parent, is made.
pub data Made : Type 0 where
  whole half nothing : Made

abbrev pub is_whole : Made → Bool
is_whole whole = true
is_whole _ = false

pub record Writer : Type 0 where
  pub mkdir : Made
  -- The size and the digest of the file that a part is written to.
  pub write_part : ℕ → ExtractionBatch → Option (ℕ × String)
  pub part_path : ℕ → String
  pub schema_equals : List CanonicalField → List CanonicalField → Bool
  pub hash_parts : List Part → String
  pub hash_fields : List CanonicalField → String
  pub hash_key : KeyIdentity → String
  -- The final directory of a source and a key.
  pub directory : String → String → String
  pub seals : DatasetSnapshot → Bool
  pub exists : String → Disk → Bool
  -- The disk after the pending directory has been renamed, and after a file has been replaced.
  pub rename : DatasetSnapshot → Disk → Option Disk
  pub write_receipt : String → Receipt → Disk → Option Disk
  pub write_pin : DatasetSnapshot → Disk → Option Disk
  pub created_at : ℕ
  pub completed_at : ℕ

unfoldable pub snapshot_key :
    Writer
    → Disk
    → SnapshotRequest
    → String
    → CanonicalSchema
    → Option SourceVersion
    → String
    → String
snapshot_key writer disk request provider schema version content = writer.hash_key (record {
  request_fingerprint = request_fingerprint disk request provider;
  schema = schema;
  source_version = elim version [ none ↦ none | some v ↦ some v.value ];
  content_fingerprint = content;
})

-- The local variables of the loop.
pub record Written : Type 0 where
  pub row_count : ℕ
  pub byte_count : ℕ
  pub files : List SnapshotFile
  pub parts : List Part
  pub schema : Option (List CanonicalField)
  pub query_id : Option String

abbrev pub nothing_written : Written
nothing_written = record {
  row_count = 0;
  byte_count = 0;
  files = [];
  parts = [];
  schema = none;
  query_id = none;
}

abbrev pub or_else : Option String → Option String → Option String
or_else none b = b
or_else (some a) b = elim a [ String.[] ↦ b | String.◌∷◌ c s ↦ some (String.◌∷◌ c s) ]

-- The directory of the snapshots, the index, and whether the pending directory is there.
pub record Files : Type 0 where
  pub disk : Disk
  pub db : Db
  pub pending : Bool

module _ (settings : Settings) (writer : Writer) where
  abbrev pub first_schema : Option (List CanonicalField) → List CanonicalField → List CanonicalField
  first_schema none s = s
  first_schema (some t) s = t

  abbrev pub fits_schema : Option (List CanonicalField) → List CanonicalField → Bool
  fits_schema none s = true
  fits_schema (some t) s = writer.schema_equals s t

  abbrev pub with_part : ℕ → ExtractionBatch → ℕ × String → Written → Written
  with_part index batch part w = record {
    row_count = w.row_count + batch.rows;
    byte_count = w.byte_count + part.0;
    files =
        w.files
        ++ (record {
          path = writer.part_path index;
          size = part.0;
          checksum = if checks_sum settings.integrity then some part.1 else none;
        })
          ∷ [];
    parts =
        w.parts
        ++ (record { path = writer.part_path index; size = part.0; checksum = part.1 }) ∷ [];
    schema = some (first_schema w.schema batch.schema);
    query_id = or_else batch.query_id w.query_id;
  }

  -- `used` is the size of the cache.
  abbrev pub add_part : ℕ → ℕ → ExtractionBatch → Written → Option (ℕ × String) → Result Written
  add_part used index batch w none = err cache_error
  add_part used index batch w (some part) =
      require (not (ltb settings.maximum_size (used + (w.byte_count + part.0)))) cache_error
      >> ok (with_part index batch part w)

  -- One round of the loop.
  unfoldable pub write_batch : ℕ → ℕ → ExtractionBatch → Written → Result Written
  write_batch used index batch w =
      require (fits_schema w.schema batch.schema) extraction_error
      >> add_part used index batch w (writer.write_part index batch)

  -- The loop over what the iterator and the token give in each round, an error included.
  unfoldable pub write_batches : ℕ → ℕ → List (Result ExtractionBatch) → Written → Result Written
  unfolding write_batch
  write_batches used index [] w = ok w
  write_batches used index (b ∷ bs) w =
      b >>= λ batch. write_batch used index batch w >>= λ w'. write_batches used (suc index) bs w'

  -- `pin`, which changes the metadata and the index.
  unfoldable pub pin : DatasetSnapshot → Files → Result DatasetSnapshot × Files
  pin s f = elim (writer.write_pin s f.disk) [
    | none ↦ (err cache_error, f)
    | some disk ↦ (
      ok (record s { pinned = true }),
      record f { disk = disk; db = set_pinned s.snapshot_key true f.db },
    )
  ]
