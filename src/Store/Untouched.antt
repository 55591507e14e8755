-- ===== src/Store/Untouched.antt =====
-- Deciding on a snapshot, pinning and writing leave the table of runs alone, whether they return or raise.
use dbtv.Common.{
  String, ◌≡◌, refl, ◌∙◌, Bool, true, false, not, ◌&&◌, List, Option, none, some, Option-cases, inl,
  inr, Bool-cases, if◌then◌else◌,
}
use dbtv.Errors.{Result, ok, err, extraction_error, internal_error}
use dbtv.Errors.Calls.{continue-state}
use dbtv.Models.{DatasetSnapshot, SnapshotRequest, SourceMode, CanonicalField}
use dbtv.State.{
  Db, record_snapshot, activate, set_pinned, mark_corrupt, SnapshotIndexRecord, row_state_eq,
  committed,
}
use dbtv.State.Untouched.{activate-runs}
use dbtv.Store.Settings.{Settings, Disk}
use dbtv.Store.Decide.{validate, pick_record, usable, fetch, decide, request_fingerprint}
use dbtv.Store.Collect.{current_size}
use dbtv.Store.Write.{
  Made, whole, half, nothing, ExtractionBatch, Writer, Written, nothing_written, Files,
  write_batches, pin,
}
use dbtv.Store.Commit.{
  WriteRequest, new_snapshot, activated, publish, published, renamed, commit_new, valid_existing,
  kept_pin, receipt_of, observed_again, with_receipt, observe, reobserved, commit_existing,
  commit_snapshot, commit_written, written_in, write, without_pending,
}

fetch-runs :
    (settings : Settings) (disk : Disk) (o : Option SnapshotIndexRecord) (db : Db)
    → (fetch settings disk o db).1.runs ≡ db.runs
unfolding fetch mark_corrupt
fetch-runs settings disk none db = refl
fetch-runs settings disk (some r) db =
    choose (row_state_eq r.state committed) (usable settings disk r.metadata_path)
  where
    choose :
        (b : Bool) (u : Result DatasetSnapshot)
        → (if b
            then elim u as (λ _. Option DatasetSnapshot × Db) [
              | ok s ↦ (some s, db)
              | err e ↦ (none, mark_corrupt r.snapshot_key db)
            ]
            else (none, db)).1.runs
          ≡ db.runs
    choose true (ok s) = refl
    choose true (err e) = refl
    choose false u = refl

pub decide-runs :
    (settings : Settings) (disk : Disk) (request : SnapshotRequest) (provider : String)
    (mode : SourceMode) (id : Option String) (db : Db)
    → (decide settings disk request provider mode id db).1.runs ≡ db.runs
unfolding decide
decide-runs settings disk request provider mode id db =
    fetch-runs settings disk
      (pick_record id request.source.unique_id (request_fingerprint disk request provider) db) db

pub pin-runs :
    (settings : Settings) (writer : Writer) (s : DatasetSnapshot) (f : Files)
    → (pin settings writer s f).1.db.runs ≡ f.db.runs
unfolding pin set_pinned
pin-runs settings writer s f = elim (Option-cases (writer.write_pin s f.disk)) [
  | inl e ↦ rw (pin, e) refl
  | inr (d, e) ↦ rw (pin, e) refl
]

module _ (settings : Settings) (writer : Writer) (w : WriteRequest) where
  activated-runs :
      (s : DatasetSnapshot) (f : Files) (r : Result Db)
      → ((db : Db) → r ≡ ok db → db.runs ≡ f.db.runs)
      → (activated settings writer w s f r).1.db.runs ≡ f.db.runs
  activated-runs s f (err e) h = refl
  activated-runs s f (ok db) h = h db refl

  publish-runs :
      (path : String) (s : DatasetSnapshot) (f : Files)
      → (publish settings writer w path s f).1.db.runs ≡ f.db.runs
  unfolding publish record_snapshot
  publish-runs path s f =
      let recorded : Files = record f { db = record_snapshot s path f.db } in
      elim (Bool-cases w.activate) [
        | inl e ↦
            rw (publish, e)
              (activated-runs s recorded (activate s.source.unique_id s.snapshot_key recorded.db)
                (λ db h. activate-runs s.source.unique_id s.snapshot_key recorded.db h))
        | inr e ↦ rw (publish, e) refl
      ]

  published-runs :
      (path : String) (s : DatasetSnapshot) (f : Files) (r : Result (Unit {0}))
      → (published settings writer w path s f r).1.db.runs ≡ f.db.runs
  published-runs path s f (err e) = refl
  published-runs path s f (ok u) = publish-runs path s f

  renamed-runs :
      (path : String) (s : DatasetSnapshot) (f : Files) (o : Option Disk)
      → (renamed settings writer w path s f o).1.db.runs ≡ f.db.runs
  renamed-runs path s f none = refl
  renamed-runs path s f (some disk) =
      published-runs path s (record f { disk = disk; pending = false })
        (validate settings.integrity disk s)

  kept_pin-runs :
      (s : DatasetSnapshot) (f : Files) → (kept_pin settings writer w s f).1.db.runs ≡ f.db.runs
  kept_pin-runs s f = elim (Bool-cases (w.pinned && not s.pinned)) [
    | inl e ↦ rw e (pin-runs settings writer s f)
    | inr e ↦ rw e refl
  ]

  with_receipt-runs :
      (path : String) (s : DatasetSnapshot) (f : Files) (o : Option Disk)
      → (with_receipt settings writer w path s f o).1.db.runs ≡ f.db.runs
  with_receipt-runs path s f none = refl
  with_receipt-runs path s f (some disk) =
      publish-runs path (observed_again settings writer w s) (record f { disk = disk })

  reobserved-runs :
      (final path : String) (f : Files) (r : Result DatasetSnapshot)
      → (reobserved settings writer w final path f r).1.db.runs ≡ f.db.runs
  reobserved-runs final path f (err e) = refl
  reobserved-runs final path f (ok s) =
      continue-state (λ (g : Files). g.db.runs ≡ f.db.runs) (kept_pin settings writer w s f)
        (observe settings writer w final path) (kept_pin-runs s f)
        (λ t g h.
          with_receipt-runs path t g
            (writer.write_receipt final (receipt_of settings writer w t) g.disk)
          ∙ h)

  commit_snapshot-runs :
      (s : DatasetSnapshot) (f : Files)
      → (commit_snapshot settings writer w s f).1.db.runs ≡ f.db.runs
  unfolding commit_snapshot commit_new commit_existing
  commit_snapshot-runs s f =
      let path = f.disk.join s.root "metadata.json" in
      elim (Bool-cases (writer.seals s)) [
        | inr e ↦ rw (commit_snapshot, e) refl
        | inl e ↦ elim (Bool-cases (writer.exists s.root f.disk)) [
          | inl x ↦
              rw (commit_snapshot, e, x)
                (reobserved-runs s.root path (without_pending f)
                  (valid_existing settings writer w f.disk path))
          | inr x ↦ rw (commit_snapshot, e, x) (renamed-runs path s f (writer.rename s f.disk))
        ]
      ]

  schema-runs :
      (f : Files) (written : Written) (o : Option (List CanonicalField))
      → (elim o as (λ _. Result DatasetSnapshot × Files) [
        | none ↦ (err extraction_error, without_pending f)
        | some fields ↦
            commit_snapshot settings writer w
              (new_snapshot settings writer w f.disk written fields)
              f
      ]).1.db.runs
        ≡ f.db.runs
  schema-runs f written none = refl
  schema-runs f written (some fields) =
      commit_snapshot-runs (new_snapshot settings writer w f.disk written fields) f

  commit_written-runs :
      (f : Files) (r : Result Written)
      → (commit_written settings writer w f r).1.db.runs ≡ f.db.runs
  commit_written-runs f (err e) = refl
  commit_written-runs f (ok written) = schema-runs f written written.schema

  pub write-runs :
      (batches : List (Result ExtractionBatch)) (disk : Disk) (db : Db)
      → (write settings writer w batches disk db).1.db.runs ≡ db.runs
  unfolding write
  write-runs batches disk db = made writer.mkdir
    where
      made :
          (m : Made)
          → (elim m as (λ _. Result DatasetSnapshot × Files) [
            | whole ↦
                written_in settings writer w batches
                  (record { disk = disk; db = db; pending = true })
            | half ↦ (err internal_error, record { disk = disk; db = db; pending = true })
            | nothing ↦ (err internal_error, record { disk = disk; db = db; pending = false })
          ]).1.db.runs
            ≡ db.runs
      made whole =
          commit_written-runs (record { disk = disk; db = db; pending = true })
            (write_batches settings writer (current_size db) 0 batches nothing_written)
      made half = refl
      made nothing = refl
