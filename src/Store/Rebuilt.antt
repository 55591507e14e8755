-- ===== src/Store/Rebuilt.antt =====
-- A rebuilt index is valid.
use dbtv.Common.{String, ℕ, ◌≡◌, refl, Bool, ◌==◌, List, [], ◌∷◌, Bool-cases, inl, inr, subst}
use dbtv.Errors.{Result, ok, err, ◌>>=◌, ◌>>◌, >>=-eq-ok, ok_inj}
use dbtv.Models.{DatasetSnapshot}
use dbtv.State.{Payload, Db, activate, clear_snapshots, commit_dataset, list_datasets}
use dbtv.State.Valid.{IsValid}
use dbtv.State.Trace.{record_snapshot_step, activate_step, commit_step, Step-IsValid}
use dbtv.Store.Settings.{Settings, Disk}
use dbtv.Store.Decide.{load, validate}
use dbtv.Store.Rebuild.{
  Recovery, recover, recover_all, by_completion, activate_unscoped, or_same, commit_datasets,
  with_sidecars, in_order, rebuild_index,
}

recover-IsValid :
    (path : String) (found : Result DatasetSnapshot) (r : Recovery)
    → IsValid r.db.snapshots
    → IsValid (recover path found r).db.snapshots
recover-IsValid path (ok s) r v = Step-IsValid (record_snapshot_step s path) v
recover-IsValid path (err e) r v = v

recover_all-IsValid :
    (settings : Settings) (disk : Disk) (paths : List String) (r : Recovery)
    → IsValid r.db.snapshots
    → IsValid (recover_all settings disk paths r).db.snapshots
unfolding recover_all
recover_all-IsValid settings disk [] r v = v
recover_all-IsValid settings disk (path ∷ paths) r v =
    let found = load disk path >>= λ s. validate settings.integrity disk s >> ok s in
    recover_all-IsValid settings disk paths (recover path found r) (recover-IsValid path found r v)

activate-IsValid :
    (source k : String) (db : Db) {after : Db}
    → IsValid db.snapshots
    → activate source k db ≡ ok after
    → IsValid after.snapshots
unfolding activate
activate-IsValid source k db v e = Step-IsValid (activate_step ((source, k) ∷ []) _ e) v

activate_unscoped-IsValid :
    (ss : List DatasetSnapshot) (db : Db) {after : Db}
    → IsValid db.snapshots
    → activate_unscoped ss db ≡ ok after
    → IsValid after.snapshots
unfolding activate_unscoped
activate_unscoped-IsValid [] db v e = subst (λ (d : Db). IsValid d.snapshots) (ok_inj e) v
activate_unscoped-IsValid (s ∷ ss) db v e = elim (Bool-cases (s.connection_scope == "")) [
  | inl t ↦
      let (next, one, rest) =
        >>=-eq-ok (activate s.source.unique_id s.snapshot_key db) (activate_unscoped ss)
          (rw t at e) in
      activate_unscoped-IsValid ss next
        (activate-IsValid s.source.unique_id s.snapshot_key db v one) rest
  | inr t ↦ activate_unscoped-IsValid ss db v (rw t at e)
]

or_same-IsValid :
    (id : String) (payload : Payload) (db : Db) (result : Result Db)
    → commit_dataset id payload db ≡ result
    → IsValid db.snapshots
    → IsValid (or_same result db).snapshots
or_same-IsValid id payload db (ok after) e v = Step-IsValid (commit_step id payload after e) v
or_same-IsValid id payload db (err x) e v = v

commit_datasets-IsValid :
    (ps : List (Payload × Bool)) (db : Db)
    → IsValid db.snapshots
    → IsValid (commit_datasets ps db).snapshots
unfolding commit_datasets
commit_datasets-IsValid [] db v = v
commit_datasets-IsValid (p ∷ ps) db v =
    commit_datasets-IsValid ps _
      (or_same-IsValid p.0.dataset_id p.0 db (commit_dataset p.0.dataset_id p.0 db) refl v)

-- Whatever the index held before and whatever the files hold, an index that is rebuilt is valid: keys are
-- unique, at most one snapshot of a source and a request is active, and active ones are committed.
pub rebuild_index-IsValid :
    (settings : Settings) (disk : Disk) (digest : Payload → String) (completed : Payload → ℕ)
    (paths : List String) (sidecars : List (Payload × Bool)) (db : Db) {result : (ℕ × ℕ) × Db}
    → rebuild_index settings disk digest completed paths sidecars db ≡ ok result
    → IsValid result.1.snapshots
unfolding rebuild_index clear_snapshots
rebuild_index-IsValid settings disk digest completed paths sidecars db e =
    let r =
      recover_all settings disk paths
        (record { recovered = []; corrupt = 0; db = clear_snapshots db }) in
    let (activated, one, last) =
      >>=-eq-ok (activate_unscoped (by_completion r.recovered) r.db) _ e in
    subst (λ (x : (ℕ × ℕ) × Db). IsValid x.1.snapshots) (ok_inj last)
      (commit_datasets-IsValid
        (in_order completed (with_sidecars digest (list_datasets activated) sidecars)) activated
        (activate_unscoped-IsValid (by_completion r.recovered) r.db
          (recover_all-IsValid settings disk paths _ (record { apart = tt; sound = tt })) one))
