-- ===== src/Store/Committed.antt =====
-- What `write` leaves behind, whether it returns or raises.
use dbtv.Common.{
  String, ◌≡◌, refl, Bool, true, false, not, ◌&&◌, List, [], ◌∷◌, Option, none, some, if◌then◌else◌,
}
use dbtv.Errors.{Result, ok, err, cache_error, internal_error, extraction_error}
use dbtv.Errors.Calls.{Ends, continue-Ends}
use dbtv.Models.{DatasetSnapshot, CanonicalField}
use dbtv.State.{Db, record_snapshot, activate, set_pinned}
use dbtv.State.Valid.{IsValid}
use dbtv.State.Trace.{Step, Step-IsValid}
use dbtv.Store.Settings.{Settings, Disk}
use dbtv.Store.Decide.{validate}
use dbtv.Store.Collect.{current_size}
use dbtv.Store.Write.{
  Made, whole, half, nothing, ExtractionBatch, Writer, Written, nothing_written, Files,
  write_batches, pin,
}
use dbtv.Store.Commit.{
  WriteRequest, without_pending, new_snapshot, activated, publish, published, renamed, commit_new,
  valid_existing, kept_pin, receipt_of, observed_again, with_receipt, observe, reobserved,
  commit_existing, commit_snapshot, commit_written, written_in, write,
}

-- The pending directory was made, and `data` in it was not.
abbrev pub is_half : Made → Bool
is_half half = true
is_half _ = false

-- The index is valid and nothing pending is left.
pub record IsClean (f : Files) : Type 0 where
  pub valid : IsValid f.db.snapshots
  pub tidy : f.pending ≡ false

abbrev pub Cleans : Result DatasetSnapshot × Files → Type 0
Cleans m = Ends (λ (_ : DatasetSnapshot) f. IsClean f) IsClean m

Ends-both {μ ν} :
    {S : Type μ} (E : S → Type ν) (m : Result DatasetSnapshot × S) → Ends (λ _ s. E s) E m → E m.1
Ends-both E (err e, s) h = h
Ends-both E (ok a, s) h = h

module _ (settings : Settings) (writer : Writer) (w : WriteRequest) where
  activated-Cleans :
      (s : DatasetSnapshot) (f : Files) (r : Result Db)
      → IsClean f
      → ((db : Db) → r ≡ ok db → IsValid db.snapshots)
      → Cleans (activated settings writer w s f r)
  activated-Cleans s f (err e) c h = c
  activated-Cleans s f (ok db) c h = record { valid = h db refl; tidy = c.tidy }

  publish-Cleans :
      (path : String) (s : DatasetSnapshot) (f : Files)
      → IsClean f
      → Cleans (publish settings writer w path s f)
  unfolding publish activate
  publish-Cleans path s f c = choose w.activate
    where
      recorded : Files
      recorded = record f { db = record_snapshot s path f.db }

      clean : IsClean recorded
      clean = record {
        valid = Step-IsValid {db = f.db} (Step.record_snapshot_step s path) c.valid;
        tidy = c.tidy;
      }

      choose :
          (b : Bool)
          → Cleans (
              if b
              then activated settings writer w s recorded
                  (activate s.source.unique_id s.snapshot_key recorded.db)
              else (ok s, recorded))
      choose true =
          activated-Cleans s recorded (activate s.source.unique_id s.snapshot_key recorded.db) clean
            (λ db e.
              Step-IsValid {db = recorded.db}
                (Step.activate_step ((s.source.unique_id, s.snapshot_key) ∷ []) db e) clean.valid)
      choose false = clean

  commit_new-Cleans :
      (path : String) (s : DatasetSnapshot) (f : Files)
      → IsValid f.db.snapshots
      → Cleans (commit_new settings writer w path s f)
  unfolding commit_new
  commit_new-Cleans path s f v = after (writer.rename s f.disk)
    where
      after : (o : Option Disk) → Cleans (renamed settings writer w path s f o)
      after none = record { valid = v; tidy = refl }
      after (some disk) = check (validate settings.integrity disk s)
        where
          check :
              (r : Result (Unit {0}))
              → Cleans
                  (published settings writer w path s (record f { disk = disk; pending = false }) r)
          check (err e) = record { valid = v; tidy = refl }
          check (ok u) =
              publish-Cleans path s (record f { disk = disk; pending = false })
                (record { valid = v; tidy = refl })

  pin-Cleans : (s : DatasetSnapshot) (f : Files) → IsClean f → Cleans (pin settings writer s f)
  unfolding pin
  pin-Cleans s f c = after (writer.write_pin s f.disk)
    where
      after :
          (o : Option Disk)
          → Cleans (elim o [
            | none ↦ (err cache_error, f)
            | some disk ↦ (
              ok (record s { pinned = true }),
              record f { disk = disk; db = set_pinned s.snapshot_key true f.db },
            )
          ])
      after none = c
      after (some disk) = record {
        valid = Step-IsValid {db = f.db} (Step.set_pinned_step s.snapshot_key true) c.valid;
        tidy = c.tidy;
      }

  kept_pin-Cleans :
      (s : DatasetSnapshot) (f : Files) → IsClean f → Cleans (kept_pin settings writer w s f)
  kept_pin-Cleans s f c = choose (w.pinned && not s.pinned)
    where
      choose : (b : Bool) → Cleans (if b then pin settings writer s f else (ok s, f))
      choose true = pin-Cleans s f c
      choose false = c

  observe-Cleans :
      (final path : String) (s : DatasetSnapshot) (f : Files)
      → IsClean f
      → Cleans (observe settings writer w final path s f)
  observe-Cleans final path s f c =
      after (writer.write_receipt final (receipt_of settings writer w s) f.disk)
    where
      after : (o : Option Disk) → Cleans (with_receipt settings writer w path s f o)
      after none = c
      after (some disk) =
          publish-Cleans path (observed_again settings writer w s) (record f { disk = disk })
            (record { valid = c.valid; tidy = c.tidy })

  commit_existing-Cleans :
      (final path : String) (f : Files)
      → IsValid f.db.snapshots
      → Cleans (commit_existing settings writer w final path f)
  unfolding commit_existing
  commit_existing-Cleans final path f v = after (valid_existing settings writer w f.disk path)
    where
      clean : IsClean (without_pending f)
      clean = record { valid = v; tidy = refl }

      after :
          (r : Result DatasetSnapshot)
          → Cleans (reobserved settings writer w final path (without_pending f) r)
      after (err e) = clean
      after (ok s) =
          continue-Ends (λ _ g. IsClean g) (λ _ g. IsClean g) IsClean
            (kept_pin settings writer w s (without_pending f))
            (observe settings writer w final path) (kept_pin-Cleans s (without_pending f) clean)
            (λ t g c. observe-Cleans final path t g c)

  commit_snapshot-Cleans :
      (s : DatasetSnapshot) (f : Files)
      → IsValid f.db.snapshots
      → Cleans (commit_snapshot settings writer w s f)
  unfolding commit_snapshot
  commit_snapshot-Cleans s f v = choose (writer.seals s) (writer.exists s.root f.disk)
    where
      path : String
      path = f.disk.join s.root "metadata.json"

      choose :
          (b c : Bool)
          → Cleans (
              if b
              then (if c
                  then commit_existing settings writer w s.root path f
                  else commit_new settings writer w path s f)
              else (err cache_error, without_pending f))
      choose true true = commit_existing-Cleans s.root path f v
      choose true false = commit_new-Cleans path s f v
      choose false c = record { valid = v; tidy = refl }

  commit_written-Cleans :
      (f : Files) (r : Result Written)
      → IsValid f.db.snapshots
      → Cleans (commit_written settings writer w f r)
  commit_written-Cleans f (err e) v = record { valid = v; tidy = refl }
  commit_written-Cleans f (ok written) v = after written.schema
    where
      after :
          (o : Option (List CanonicalField))
          → Cleans (elim o [
            | none ↦ (err extraction_error, without_pending f)
            | some fields ↦
                commit_snapshot settings writer w
                  (new_snapshot settings writer w f.disk written fields)
                  f
          ])
      after none = record { valid = v; tidy = refl }
      after (some fields) =
          commit_snapshot-Cleans (new_snapshot settings writer w f.disk written fields) f v

  written_in-IsClean :
      (batches : List (Result ExtractionBatch)) (f : Files)
      → IsValid f.db.snapshots
      → IsClean (written_in settings writer w batches f).1
  written_in-IsClean batches f v = Ends-both IsClean (written_in settings writer w batches f) (
      commit_written-Cleans f
        (write_batches settings writer (current_size f.db) 0 batches nothing_written) v)

  -- Whether write returns or raises, the index keeps its invariant, and a pending directory is left exactly
  -- if its subdirectory could not be made after it.
  pub write-IsClean :
      (batches : List (Result ExtractionBatch)) (disk : Disk) (db : Db)
      → IsValid db.snapshots
      → let f = (write settings writer w batches disk db).1 in
        IsValid f.db.snapshots × (f.pending ≡ is_half writer.mkdir)
  unfolding write
  write-IsClean batches disk db v = made writer.mkdir
    where
      made :
          (m : Made)
          → let f =
              (elim m as (λ _. Result DatasetSnapshot × Files) [
                | whole ↦
                    written_in settings writer w batches
                      (record { disk = disk; db = db; pending = true })
                | half ↦ (err internal_error, record { disk = disk; db = db; pending = true })
                | nothing ↦ (err internal_error, record { disk = disk; db = db; pending = false })
              ]).1 in
            IsValid f.db.snapshots × (f.pending ≡ is_half m)
      made whole =
          let c = written_in-IsClean batches (record { disk = disk; db = db; pending = true }) v in
          (c.valid, c.tidy)
      made half = (v, refl)
      made nothing = (v, refl)
