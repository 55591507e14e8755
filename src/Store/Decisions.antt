-- ===== src/Store/Decisions.antt =====
-- What a decision of the store promises.
use dbtv.Common.{
  String, ◌≡◌, ◌≢◌, refl, subst, Bool, true, not, ◌&&◌, ◌||◌, eq_iff, List, [], ◌∷◌, map, Option,
  none, some, arith, All,
}
use dbtv.Errors.{DbtvError, ok, err, ◌>>◌, >>=-eq-ok, ok_inj}
use dbtv.Models.{DatasetSnapshot, SnapshotRequest, SourceMode, SnapshotAction, SnapshotDecision}
use dbtv.State.{
  SnapshotIndexRecord, Db, committed, corrupt, row_state_eq, is_key, corrupted, mark_corrupt,
}
use dbtv.Store.Settings.{Settings, Disk}
use dbtv.Store.Decide.{
  request_fingerprint, load, validate, is_expired, given, pick_record, usable, fetch, is_local_mode,
  conclude, decide,
}

usable-valid :
    (settings : Settings) (disk : Disk) (path : String) (s : DatasetSnapshot)
    → usable settings disk path ≡ ok s
    → validate settings.integrity disk s ≡ ok tt
unfolding usable
usable-valid settings disk path s h =
    let (t, loaded, rest) =
      >>=-eq-ok (load disk path) (λ t. validate settings.integrity disk t >> ok t) h in
    let (_, valid, same) = >>=-eq-ok (validate settings.integrity disk t) (λ _. ok t) rest in
    subst (λ x. validate settings.integrity disk x ≡ ok tt) (ok_inj same) valid

-- The snapshot that `fetch` returns is valid on the disk.
fetch-valid :
    (settings : Settings) (disk : Disk) (o : Option SnapshotIndexRecord) (db : Db)
    (s : DatasetSnapshot)
    → (fetch settings disk o db).0 ≡ some s
    → validate settings.integrity disk s ≡ ok tt
unfolding fetch
fetch-valid settings disk none db s h = cc
fetch-valid settings disk (some r) db s h =
    usable-valid settings disk r.metadata_path s (ground arith)

-- What stands behind an action to reuse.
pub record IsReusable (settings : Settings) (disk : Disk) (request : SnapshotRequest)
    (provider : String) (mode : SourceMode) (s : DatasetSnapshot) : Type 0 where
  pub fingerprint : s.request_fingerprint ≡ request_fingerprint disk request provider
  pub valid : validate settings.integrity disk s ≡ ok tt
  pub fresh : (is_local_mode mode || not (is_expired settings s)) ≡ true

conclude-reuse :
    (settings : Settings) (request : SnapshotRequest) (fingerprint : String) (id : Option String)
    (mode : SourceMode) (o : Option DatasetSnapshot)
    → (conclude settings request fingerprint id mode o).action ≡ SnapshotAction.reuse
    → (s : DatasetSnapshot) × (o ≡ some s)
      × ((conclude settings request fingerprint id mode o).snapshot ≡ some s)
      × (s.request_fingerprint ≡ fingerprint)
      × ((is_local_mode mode || not (is_expired settings s)) ≡ true)
unfolding conclude
conclude-reuse settings request fingerprint (some id) mode none h = cc
conclude-reuse settings request fingerprint none mode none h = absurd (ground arith)
conclude-reuse settings request fingerprint (some id) mode (some s) h =
    (s, refl, ground arith, ground (arith, eq_iff s.request_fingerprint fingerprint), ground arith)
conclude-reuse settings request fingerprint none mode (some s) h =
    (s, refl, ground arith, ground (arith, eq_iff s.request_fingerprint fingerprint), ground arith)

conclude-local :
    (settings : Settings) (request : SnapshotRequest) (fingerprint : String) (id : Option String)
    (mode : SourceMode) (o : Option DatasetSnapshot)
    → is_local_mode mode ≡ true
    → (conclude settings request fingerprint id mode o).action ≢ SnapshotAction.refresh
unfolding conclude
conclude-local settings request fingerprint (some id) mode none h = ground arith
conclude-local settings request fingerprint none mode none h = ground arith
conclude-local settings request fingerprint (some id) mode (some s) h = ground arith
conclude-local settings request fingerprint none mode (some s) h = ground arith

conclude-none :
    (settings : Settings) (request : SnapshotRequest) (fingerprint : String) (id : Option String)
    (mode : SourceMode)
    → (conclude settings request fingerprint id mode none).action ≢ SnapshotAction.reuse
unfolding conclude
conclude-none settings request fingerprint (some id) mode = ground arith
conclude-none settings request fingerprint none mode = ground arith

-- No row of the key is active or committed.
abbrev pub is_withdrawn : String → SnapshotIndexRecord → Bool
is_withdrawn k r = not (is_key k r) || row_state_eq r.state corrupt && not r.active

corrupted-withdrawn :
    (k : String) (rows : List SnapshotIndexRecord)
    → All (λ r. is_withdrawn k r ≡ true) (map (corrupted k) rows)
corrupted-withdrawn k [] = tt
corrupted-withdrawn k (r ∷ rows) = (ground arith, corrupted-withdrawn k rows)

fetch-corrupt :
    (settings : Settings) (disk : Disk) (r : SnapshotIndexRecord) (db : Db) (e : DbtvError)
    → r.state ≡ committed
    → usable settings disk r.metadata_path ≡ err e
    → fetch settings disk (some r) db ≡ (none, mark_corrupt r.snapshot_key db)
unfolding fetch
fetch-corrupt settings disk r db e c u = rw (c, u)

module _ (settings : Settings) (disk : Disk) (request : SnapshotRequest) (provider : String)
    (mode : SourceMode) (snapshot_id : Option String) (db : Db) where
  abbrev picked : Option SnapshotIndexRecord
  picked =
      pick_record snapshot_id request.source.unique_id (request_fingerprint disk request provider)
        db

  abbrev outcome : SnapshotDecision × Db
  outcome = decide settings disk request provider mode snapshot_id db

  -- In the offline and the cached mode no decision asks for a refresh.
  pub decide-local_mode :
      is_local_mode mode ≡ true
      → (decide settings disk request provider mode snapshot_id db).0.action
        ≢ SnapshotAction.refresh
  unfolding decide conclude
  decide-local_mode h =
      conclude-local settings request (request_fingerprint disk request provider)
        (given snapshot_id) mode (fetch settings disk picked db).0 h

  -- A decision to reuse carries a snapshot that was taken for the same request and provider, that
  -- is valid on the disk, and that has not expired unless the mode is offline or cached.
  pub decide-reuse :
      (decide settings disk request provider mode snapshot_id db).0.action ≡ SnapshotAction.reuse
      → (s : DatasetSnapshot) × ((decide settings disk request provider mode snapshot_id
            db).0.snapshot
          ≡ some s)
        × IsReusable settings disk request provider mode s
  unfolding decide
  decide-reuse h =
      let (s, found, carried, same, fresh) =
        conclude-reuse settings request (request_fingerprint disk request provider)
          (given snapshot_id) mode (fetch settings disk picked db).0 h in
      (
        s,
        carried,
        record {
          fingerprint = same;
          valid = fetch-valid settings disk picked db s found;
          fresh = fresh;
        },
      )

  -- A committed record whose files cannot be loaded or validated is not reused, and afterwards every
  -- row of its key is corrupt and inactive.
  pub decide-quarantine :
      (r : SnapshotIndexRecord)
      → picked ≡ some r
      → r.state ≡ committed
      → (e : DbtvError) → usable settings disk r.metadata_path ≡ err e
      → ((decide settings disk request provider mode snapshot_id db).0.action
          ≢ SnapshotAction.reuse)
        × All
            (λ row. is_withdrawn r.snapshot_key row ≡ true)
            (decide settings disk request provider mode snapshot_id db).1.snapshots
  unfolding decide mark_corrupt
  decide-quarantine r p c e u =
      rw (p, fetch-corrupt settings disk r db e c u)
        (
          conclude-none settings request (request_fingerprint disk request provider)
              (given snapshot_id) mode,
          corrupted-withdrawn r.snapshot_key db.snapshots,
        )
