-- ===== src/Store/Commit.antt =====
-- snapshot/store.py: the second half of `write`, which commits what the loop has written.
use dbtv.Common.{◌+◌, String, Bool, true, false, not, ◌&&◌, List, Option, none, some, if◌then◌else◌}
use dbtv.Errors.{Result, ok, err, cache_error, internal_error, extraction_error, ◌>>=◌, ◌>>◌}
use dbtv.Errors.Calls.{continue}
use dbtv.Models.{SnapshotRequest, DatasetSnapshot, SourceVersion, CanonicalField, CanonicalSchema}
use dbtv.State.{Db, record_snapshot, activate}
use dbtv.Store.Settings.{Settings, Disk, Receipt}
use dbtv.Store.Decide.{request_fingerprint, load, validate}
use dbtv.Store.Collect.{current_size}
use dbtv.Store.Write.{
  whole, half, nothing, ExtractionBatch, Writer, Written, nothing_written, Files, snapshot_key,
  write_batches, pin,
}

-- The arguments of `write` but the batches.
pub record WriteRequest : Type 0 where
  pub request : SnapshotRequest
  pub provider : String
  pub source_version : Option SourceVersion
  pub provider_version : Option String
  pub pinned : Bool
  pub activate : Bool

abbrev pub without_pending : Files → Files
without_pending f = record f { pending = false }

module _ (settings : Settings) (writer : Writer) (w : WriteRequest) where
  unfoldable pub canonical_schema : List CanonicalField → CanonicalSchema
  canonical_schema fields = record { fields = fields; fingerprint = writer.hash_fields fields }

  -- The snapshot of what was written, with the disk that the fingerprint is taken with.
  unfoldable pub new_snapshot : Disk → Written → List CanonicalField → DatasetSnapshot
  unfolding snapshot_key canonical_schema request_fingerprint
  new_snapshot disk written fields =
      let content = writer.hash_parts written.parts in
      let key =
        snapshot_key writer disk w.request w.provider (canonical_schema fields) w.source_version
          content in
      record {
        snapshot_key = key;
        request_fingerprint = request_fingerprint disk w.request w.provider;
        content_fingerprint = content;
        source = w.request.source;
        provider = w.provider;
        remote_relation = w.request.relation;
        sampling = w.request.sampling;
        fidelity = w.request.fidelity;
        projection = w.request.projection;
        schema = canonical_schema fields;
        source_version = w.source_version;
        root = writer.directory w.request.source.unique_id key;
        files = written.files;
        created_at = writer.created_at;
        completed_at = writer.completed_at;
        expires_at = some (writer.completed_at + settings.ttl);
        row_count = written.row_count;
        byte_count = written.byte_count;
        query_id = written.query_id;
        query_tag = w.request.query_tag;
        provider_version = w.provider_version;
        pinned = w.pinned;
        connection_scope = w.request.connection_scope;
        verified_at = none;
      }

  abbrev pub activated : DatasetSnapshot → Files → Result Db → Result DatasetSnapshot × Files
  activated s f (err e) = (err e, f)
  activated s f (ok db) = (ok s, record f { db = db })

  -- `record_snapshot`, and `activate` if that was asked for.
  unfoldable pub publish : String → DatasetSnapshot → Files → Result DatasetSnapshot × Files
  publish path s f =
      let recorded = record f { db = record_snapshot s path f.db } in
      if w.activate
      then activated s recorded (activate s.source.unique_id s.snapshot_key recorded.db)
      else (ok s, recorded)

  abbrev pub published :
      String → DatasetSnapshot → Files → Result (Unit {0}) → Result DatasetSnapshot × Files
  published path s f (err e) = (err e, f)
  published path s f (ok _) = publish path s f

  abbrev pub renamed :
      String → DatasetSnapshot → Files → Option Disk → Result DatasetSnapshot × Files
  renamed path s f none = (err cache_error, without_pending f)
  renamed path s f (some disk) =
      published path s (record f { disk = disk; pending = false })
        (validate settings.integrity disk s)

  -- The final directory is not there yet.
  unfoldable pub commit_new : String → DatasetSnapshot → Files → Result DatasetSnapshot × Files
  unfolding publish
  commit_new path s f = renamed path s f (writer.rename s f.disk)

  abbrev pub valid_existing : Disk → String → Result DatasetSnapshot
  valid_existing disk path = load disk path >>= λ s. validate settings.integrity disk s >> ok s

  abbrev pub kept_pin : DatasetSnapshot → Files → Result DatasetSnapshot × Files
  kept_pin s f = if w.pinned && not s.pinned then pin settings writer s f else (ok s, f)

  abbrev pub receipt_of : DatasetSnapshot → Receipt
  receipt_of s = record {
    snapshot_key = s.snapshot_key;
    verified_at = writer.completed_at;
    expires_at = writer.completed_at + settings.ttl;
    aware = true;
  }

  abbrev pub observed_again : DatasetSnapshot → DatasetSnapshot
  observed_again s = record s {
    verified_at = some writer.completed_at;
    expires_at = some (writer.completed_at + settings.ttl);
  }

  abbrev pub with_receipt :
      String → DatasetSnapshot → Files → Option Disk → Result DatasetSnapshot × Files
  with_receipt path s f none = (err cache_error, f)
  with_receipt path s f (some disk) = publish path (observed_again s) (record f { disk = disk })

  -- The receipt in the directory `final`.
  abbrev pub observe : String → String → DatasetSnapshot → Files → Result DatasetSnapshot × Files
  observe final path s f = with_receipt path s f (writer.write_receipt final (receipt_of s) f.disk)

  abbrev pub reobserved :
      String → String → Files → Result DatasetSnapshot → Result DatasetSnapshot × Files
  reobserved final path f (err e) = (err e, f)
  reobserved final path f (ok s) = continue (kept_pin s f) (observe final path)

  -- The same input has been captured before.
  unfoldable pub commit_existing : String → String → Files → Result DatasetSnapshot × Files
  unfolding publish pin
  commit_existing final path f =
      reobserved final path (without_pending f) (valid_existing f.disk path)

  unfoldable pub commit_snapshot : DatasetSnapshot → Files → Result DatasetSnapshot × Files
  unfolding commit_new commit_existing
  commit_snapshot s f =
      let path = f.disk.join s.root "metadata.json" in
      if writer.seals s
      then (if writer.exists s.root f.disk
          then commit_existing s.root path f
          else commit_new path s f)
      else (err cache_error, without_pending f)

  abbrev pub commit_written : Files → Result Written → Result DatasetSnapshot × Files
  commit_written f (err e) = (err e, without_pending f)
  commit_written f (ok written) = elim written.schema [
    | none ↦ (err extraction_error, without_pending f)
    | some fields ↦ commit_snapshot (new_snapshot f.disk written fields) f
  ]

  -- The `try` block and its handlers.
  abbrev pub written_in : List (Result ExtractionBatch) → Files → Result DatasetSnapshot × Files
  written_in batches f =
      commit_written f (write_batches settings writer (current_size f.db) 0 batches nothing_written)

  -- The directories are made before the `try` block: an OSError leaves `write` as it is, which is no error
  -- of the program's own.
  unfoldable pub write : List (Result ExtractionBatch) → Disk → Db → Result DatasetSnapshot × Files
  unfolding new_snapshot commit_snapshot write_batches current_size
  write batches disk db = elim writer.mkdir [
    | whole ↦ written_in batches (record { disk = disk; db = db; pending = true })
    | half ↦ (err internal_error, record { disk = disk; db = db; pending = true })
    | nothing ↦ (err internal_error, record { disk = disk; db = db; pending = false })
  ]
