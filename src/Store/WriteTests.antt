-- ===== src/Store/WriteTests.antt =====
-- A capture of one batch that is written, and one that passes the quota.
use dbtv.Common.{◌≡◌, refl, arith, ◌+◌, true, false, [], ◌∷◌, none, some}
use dbtv.Errors.{ok, err, cache_error}
use dbtv.Store.Write.{whole, ExtractionBatch, Writer, Written, nothing_written, write_batches}
use dbtv.Store.Commit.{WriteRequest, write}
use dbtv.Store.Committed.{is_half, write-IsClean}
use dbtv.Store.Quota.{IsWithin, rows_given, write_batches-IsWithin}
use dbtv.Store.Tests.{settings, disk}
use dbtv.State.Valid.{IsValid}
use dbtv.Samples.{request, index, index-IsValid}

abbrev batch : ExtractionBatch
batch = record { rows = 3; bytes = 24; schema = []; query_id = some "q" }

abbrev pub writer : Writer
writer = record {
  mkdir = whole;
  write_part = λ i b. some (10, "sha");
  part_path = λ i. "data/part-00000.parquet";
  schema_equals = λ s t. true;
  hash_parts = λ parts. "content";
  hash_fields = λ fields. "schema";
  hash_key = λ identity. "key";
  directory = λ source key. "/cache/key";
  seals = λ s. true;
  exists = λ path d. false;
  rename = λ s d. some d;
  write_receipt = λ path receipt d. some d;
  write_pin = λ s d. some d;
  created_at = 5;
  completed_at = 6;
}

abbrev asked : WriteRequest
asked = record {
  request = request;
  provider = "parquet";
  source_version = none;
  provider_version = none;
  pinned = false;
  activate = true;
}

abbrev written : Written
written = record {
  row_count = 3;
  byte_count = 10;
  files = (record { path = "data/part-00000.parquet"; size = 10; checksum = some "sha" }) ∷ [];
  parts = (record { path = "data/part-00000.parquet"; size = 10; checksum = "sha" }) ∷ [];
  schema = some [];
  query_id = some "q";
}

write-IsClean_example :
    let f = (write settings writer asked (ok batch ∷ []) (disk true) index).1 in
    IsValid f.db.snapshots × (f.pending ≡ is_half writer.mkdir)
write-IsClean_example =
    write-IsClean settings writer asked (ok batch ∷ []) (disk true) index index-IsValid

writes : write_batches settings writer 20 0 (ok batch ∷ []) nothing_written ≡ ok written
unfolding write_batches
writes = refl

-- A cache of 995 bytes has no room for another 10 of at most 1000.
refuses : write_batches settings writer 995 0 (ok batch ∷ []) nothing_written ≡ err cache_error
unfolding write_batches
refuses = refl

write_batches-IsWithin_example :
    IsWithin settings writer 20 written
    × (written.row_count ≡ nothing_written.row_count + rows_given (ok batch ∷ []))
write_batches-IsWithin_example =
    write_batches-IsWithin settings writer 20 0 (ok batch ∷ []) nothing_written written
      (record { bytes = refl; quota = omega arith }) writes
