-- ===== src/Store/Decide.antt =====
-- snapshot/keys.py and the reading side of snapshot/store.py: fingerprints, `load`, `validate` and
-- `decide`. Every error that they raise is a CacheError.
use dbtv.Common.{
  ◌+◌, min, String, Bool, true, false, not, ◌&&◌, ◌||◌, ◌==◌, List, [], ◌∷◌, Option, none, some,
  if◌then◌else◌, leb, nat_eq,
}
use dbtv.Errors.{Result, ok, err, cache_error, require, ◌>>=◌, ◌>>◌}
use dbtv.Models.{
  DatasetSnapshot, SnapshotRequest, SnapshotFile, SourceMode, auto, cached, offline, SnapshotAction,
  SnapshotDecision,
}
use dbtv.State.{
  SnapshotIndexRecord, Db, committed, row_state_eq, get_snapshot, active_snapshot, mark_corrupt,
}
use dbtv.Store.Settings.{
  Integrity, metadata_only, metadata_and_sizes, checksums, Settings, Disk, Observation, absent,
  unreadable, observed,
}
use dbtv.Store.Metadata.{snapshot_from_metadata, get_or}

unfoldable pub request_fingerprint : Disk → SnapshotRequest → String → String
request_fingerprint disk request provider =
    disk.hash_request
      (record { provider = provider; request = record request { query_tag = none } })

-- What a readable receipt does to the snapshot that was loaded.
abbrev pub with_observation : Observation → DatasetSnapshot → Result DatasetSnapshot
with_observation absent s = ok s
with_observation unreadable s = err cache_error
with_observation (observed receipt) s =
    if receipt.snapshot_key == s.snapshot_key && receipt.aware
    then ok
        (record s { verified_at = some receipt.verified_at; expires_at = some receipt.expires_at })
    else err cache_error

unfoldable pub load : Disk → String → Result DatasetSnapshot
load disk path = elim (disk.read_metadata path) [
  | none ↦ err cache_error
  | some raw ↦ elim (snapshot_from_metadata raw (disk.parent path)) [
    | none ↦ err cache_error
    | some s ↦
        with_observation (disk.read_observation (disk.join (disk.parent path) "observation.json")) s
  ]
]

abbrev pub checks_size : Integrity → Bool
checks_size metadata_only = false
checks_size metadata_and_sizes = true
checks_size checksums = true

abbrev pub checks_sum : Integrity → Bool
checks_sum checksums = true
checks_sum _ = false

abbrev pub is_checksum : Option String → String → Bool
is_checksum none digest = false
is_checksum (some c) digest = c == digest

-- One round of the loop of `validate`.
unfoldable pub validate_file : Integrity → Disk → String → SnapshotFile → Result (Unit {0})
validate_file integrity disk root item =
    let path = disk.resolve (disk.join root item.path) in
    require (disk.is_relative_to path (disk.resolve root) && disk.is_file path) cache_error
    >> require (not (checks_size integrity) || nat_eq (disk.size path) item.size) cache_error
    >> require (not (checks_sum integrity) || is_checksum item.checksum (disk.sha256_file path))
        cache_error

unfoldable pub validate_files : Integrity → Disk → String → List SnapshotFile → Result (Unit {0})
validate_files integrity disk root [] = ok tt
validate_files integrity disk root (item ∷ rest) =
    validate_file integrity disk root item >> validate_files integrity disk root rest

unfoldable pub validate : Integrity → Disk → DatasetSnapshot → Result (Unit {0})
unfolding validate_files
validate integrity disk s =
    require (disk.is_file (disk.join s.root "_SUCCESS")) cache_error
    >> validate_files integrity disk s.root s.files

unfoldable pub is_expired : Settings → DatasetSnapshot → Bool
is_expired settings s =
    let renewed = get_or s.verified_at s.completed_at + settings.ttl in
    leb (elim s.expires_at [ none ↦ renewed | some t ↦ min renewed t ]) settings.now

-- `snapshot_id` counts only if it is not empty.
abbrev pub given : Option String → Option String
given none = none
given (some id) = if id == "" then none else some id

unfoldable pub pick_record : Option String → String → String → Db → Option SnapshotIndexRecord
pick_record snapshot_id source fingerprint db = elim (given snapshot_id) [
  | none ↦ active_snapshot source fingerprint db
  | some id ↦ get_snapshot id db
]

-- The body of the `try` block: the snapshot that a record names, loaded and validated.
unfoldable pub usable : Settings → Disk → String → Result DatasetSnapshot
usable settings disk path = load disk path >>= λ s. validate settings.integrity disk s >> ok s

-- The snapshot behind a record, or the record marked as corrupt.
unfoldable pub fetch :
    Settings → Disk → Option SnapshotIndexRecord → Db → Option DatasetSnapshot × Db
fetch settings disk none db = (none, db)
fetch settings disk (some r) db =
    if row_state_eq r.state committed
    then elim (usable settings disk r.metadata_path) [
      | ok s ↦ (some s, db)
      | err e ↦ (none, mark_corrupt r.snapshot_key db)
    ]
    else (none, db)

abbrev pub is_local_mode : SourceMode → Bool
is_local_mode offline = true
is_local_mode cached = true
is_local_mode _ = false

abbrev pub is_refresh_mode : SourceMode → Bool
is_refresh_mode SourceMode.refresh = true
is_refresh_mode _ = false

-- The text `f"{mode} cache miss"`.
abbrev pub miss_reason : SourceMode → String
miss_reason offline = "offline cache miss"
miss_reason cached = "cached cache miss"
miss_reason auto = "auto cache miss"
miss_reason SourceMode.refresh = "refresh cache miss"

abbrev pub decided :
    SnapshotRequest → SnapshotAction → String → Option DatasetSnapshot → SnapshotDecision
decided request action reason s = record {
  request = request;
  action = action;
  reason = reason;
  snapshot = s;
}

-- The returns of `decide` once the snapshot is known.
unfoldable pub conclude :
    Settings
    → SnapshotRequest
    → String
    → Option String
    → SourceMode
    → Option DatasetSnapshot
    → SnapshotDecision
conclude settings request fingerprint (some id) mode none =
    decided request SnapshotAction.missing "pinned snapshot not found" none
conclude settings request fingerprint none mode none =
    if is_refresh_mode mode
    then decided request SnapshotAction.refresh "refresh requested" none
    else if is_local_mode mode
    then decided request SnapshotAction.missing (miss_reason mode) none
    else decided request SnapshotAction.refresh "snapshot missing" none
conclude settings request fingerprint id mode (some s) =
    if not (s.request_fingerprint == fingerprint)
    then decided request SnapshotAction.missing "snapshot request differs" none
    else if is_refresh_mode mode
    then decided request SnapshotAction.refresh "refresh requested" (some s)
    else if is_local_mode mode || not (is_expired settings s)
    then decided request SnapshotAction.reuse "valid committed snapshot" (some s)
    else decided request SnapshotAction.refresh "snapshot expired" (some s)

unfoldable pub decide :
    Settings
    → Disk
    → SnapshotRequest
    → String
    → SourceMode
    → Option String
    → Db
    → SnapshotDecision × Db
decide settings disk request provider mode snapshot_id db =
    let fingerprint = request_fingerprint disk request provider in
    let (s, db') =
      fetch settings disk (pick_record snapshot_id request.source.unique_id fingerprint db) db in
    (conclude settings request fingerprint (given snapshot_id) mode s, db')
