-- ===== src/State/Untouched.antt =====
-- Calls of the index that leave the table of runs alone.
use dbtv.Common.{String, ◌≡◌, sym, ap, [], ◌∷◌}
use dbtv.Errors.{ok, >>=-eq-ok, ok_inj}
use dbtv.State.Tables.{Db, Payload}
use dbtv.State.Activation.{activate_all, activate_many, activate, commit_dataset}

pub activate-runs :
    (source k : String) (db : Db) {db' : Db} → activate source k db ≡ ok db' → db'.runs ≡ db.runs
unfolding activate activate_many
activate-runs source k db h =
    let (rows, _, last) =
      >>=-eq-ok (activate_all ((source, k) ∷ []) db.snapshots)
        (λ rows. ok (record db { snapshots = rows })) h in
    sym (ap (λ (d : Db). d.runs) (ok_inj last))

pub commit_dataset-runs :
    (id : String) (payload : Payload) (db : Db) {db' : Db}
    → commit_dataset id payload db ≡ ok db'
    → db'.runs ≡ db.runs
unfolding commit_dataset
commit_dataset-runs id payload db h =
    let (rows, _, last) = >>=-eq-ok (activate_all payload.snapshots db.snapshots) _ h in
    sym (ap (λ (d : Db). d.runs) (ok_inj last))
