-- ===== src/State/Trace.antt =====
-- Every sequence of calls of the index keeps its invariant.
use dbtv.Common.{ℕ, String, ◌≡◌, refl, Bool, List, subst, not}
use dbtv.Errors.{ok, >>=-eq-ok, ok_inj}
use dbtv.Models.{DatasetSnapshot, SourceBinding}
use dbtv.State.Tables.{
  Payload, Db, empty, is_key, inserted, corrupted, with_pin, record_snapshot, mark_corrupt,
  set_pinned, clear_snapshots, delete_snapshot,
}
use dbtv.State.Activation.{activate_all, activate_many, commit_dataset, delete_dataset}
use dbtv.State.Runs.{start_run, finish_run, update_run_state, record_binding}
use dbtv.State.Valid.{
  IsValid, Lowers-IsValid, corrupted-Lowers, with_pin-Lowers, keep-IsValid, upsert-IsValid,
}
use dbtv.State.Exclusive.{activate_all-IsValid}

-- One call of a method that writes. A call that raises is no step, since it writes nothing.
pub data Step (db : Db) : Db → Type 0 where
  record_snapshot_step : (s : DatasetSnapshot) (path : String) → Step db (record_snapshot s path db)
  activate_step :
      (snapshots : List (String × String)) (after : Db)
      → activate_many snapshots db ≡ ok after
      → Step db after
  commit_step :
      (id : String) (payload : Payload) (after : Db)
      → commit_dataset id payload db ≡ ok after
      → Step db after
  delete_dataset_step : (id : String) → Step db (delete_dataset id db)
  mark_corrupt_step : (k : String) → Step db (mark_corrupt k db)
  set_pinned_step : (k : String) (pinned : Bool) → Step db (set_pinned k pinned db)
  clear_step : Step db (clear_snapshots db)
  delete_step : (k : String) → Step db (delete_snapshot k db)
  start_run_step :
      (id command state : String) (at : ℕ) (path : String)
      → Step db (start_run id command state at path db)
  finish_run_step :
      (id state : String) (at queries code : ℕ) → Step db (finish_run id state at queries code db)
  update_run_step : (id state : String) → Step db (update_run_state id state db)
  binding_step : (id : String) (b : SourceBinding) → Step db (record_binding id b db)

pub data Reach : Db → Type 0 where
  start : Reach empty
  next : {db after : Db} → Reach db → Step db after → Reach after

record_snapshot-IsValid :
    (s : DatasetSnapshot) (path : String) (db : Db)
    → IsValid db.snapshots
    → IsValid (record_snapshot s path db).snapshots
unfolding record_snapshot
record_snapshot-IsValid s path db v = upsert-IsValid (inserted s path) refl refl db.snapshots v

activate_many-IsValid :
    (snapshots : List (String × String)) (db : Db) {after : Db}
    → IsValid db.snapshots
    → activate_many snapshots db ≡ ok after
    → IsValid after.snapshots
unfolding activate_many
activate_many-IsValid snapshots db v e =
    let (rows, one, last) = >>=-eq-ok (activate_all snapshots db.snapshots) _ e in
    subst (λ (d : Db). IsValid d.snapshots) (ok_inj last)
      (activate_all-IsValid snapshots db.snapshots v one)

commit_dataset-IsValid :
    (id : String) (payload : Payload) (db : Db) {after : Db}
    → IsValid db.snapshots
    → commit_dataset id payload db ≡ ok after
    → IsValid after.snapshots
unfolding commit_dataset
commit_dataset-IsValid id payload db v e =
    let (rows, one, last) = >>=-eq-ok (activate_all payload.snapshots db.snapshots) _ e in
    subst (λ (d : Db). IsValid d.snapshots) (ok_inj last)
      (activate_all-IsValid payload.snapshots db.snapshots v one)

pub Step-IsValid : {db after : Db} → Step db after → IsValid db.snapshots → IsValid after.snapshots
unfolding mark_corrupt set_pinned clear_snapshots delete_snapshot delete_dataset start_run
    finish_run update_run_state record_binding
Step-IsValid {db} (record_snapshot_step s path) v = record_snapshot-IsValid s path db v
Step-IsValid {db} (activate_step snapshots after e) v = activate_many-IsValid snapshots db v e
Step-IsValid {db} (commit_step id payload after e) v = commit_dataset-IsValid id payload db v e
Step-IsValid (delete_dataset_step id) v = v
Step-IsValid {db} (mark_corrupt_step k) v =
    Lowers-IsValid (corrupted k) (corrupted-Lowers k) db.snapshots v
Step-IsValid {db} (set_pinned_step k pinned) v =
    Lowers-IsValid (with_pin k pinned) (with_pin-Lowers k pinned) db.snapshots v
Step-IsValid clear_step v = record { apart = tt; sound = tt }
Step-IsValid {db} (delete_step k) v = keep-IsValid (λ r. not (is_key k r)) db.snapshots v
Step-IsValid (start_run_step id command state at path) v = v
Step-IsValid (finish_run_step id state at queries code) v = v
Step-IsValid (update_run_step id state) v = v
Step-IsValid (binding_step id b) v = v

-- In every state of the index that calls from the empty one lead to, whatever the calls are, the
-- snapshot keys are unique, at most one snapshot of a source and a request is active, and an active
-- snapshot is committed.
pub Reach-IsValid : {db : Db} → Reach db → IsValid db.snapshots
Reach-IsValid start = record { apart = tt; sound = tt }
Reach-IsValid (next r step) = Step-IsValid step (Reach-IsValid r)
