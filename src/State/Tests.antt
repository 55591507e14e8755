-- ===== src/State/Tests.antt =====
-- Runs of the index.
use dbtv.Common.{◌≡◌, refl, true, false, [], ◌∷◌, some, first_of_test}
use dbtv.Errors.{ok, err, cache_error}
use dbtv.State.Tables.{
  SnapshotIndexRecord, Db, empty, record_snapshot, upsert, get_snapshot, active_snapshot,
}
use dbtv.State.Activation.{activate_many, activate_all, activate_one, activate, commit_dataset}
use dbtv.State.Valid.{IsValid}
use dbtv.State.Refinement.{put, active_keys, activate-refines}
use dbtv.State.Trace.{start, next, record_snapshot_step, activate_step, Reach-IsValid}
use dbtv.State.Active.{active_snapshot_lem}
use dbtv.State.Datasets.{IsPublishedDataset, commit_dataset-publishes, commit_dataset-rejects}
use dbtv.Samples.{captured, row, index, index-IsValid, payload}

abbrev after_capture : Db
after_capture = record_snapshot captured "/cache/new/meta" empty

abbrev after_activation : Db
after_activation = record after_capture {
  snapshots = (record (row "new" 7 true) { metadata_path = "/cache/new/meta" }) ∷ [];
}

activation :
    activate_many (("source.shop.raw.orders", "new") ∷ []) after_capture ≡ ok after_activation
unfolding activate_many activate_all activate_one record_snapshot first_of_test upsert
activation = refl

Reach-IsValid_example : IsValid after_activation.snapshots
Reach-IsValid_example = Reach-IsValid (
    next (next start (record_snapshot_step captured "/cache/new/meta"))
      (activate_step (("source.shop.raw.orders", "new") ∷ []) after_activation activation))

active_snapshot_lem_example :
    active_snapshot "source.shop.raw.orders" "print" index ≡ some (row "old" 5 true)
unfolding get_snapshot first_of_test
active_snapshot_lem_example =
    active_snapshot_lem "source.shop.raw.orders" "print" "old" index (row "old" 5 true)
      index-IsValid refl refl

commit_dataset-publishes_example :
    (after : Db) × (commit_dataset "d1" payload index ≡ ok after)
    × IsPublishedDataset "d1" payload after
commit_dataset-publishes_example =
    commit_dataset-publishes "d1" payload index index-IsValid (tt, tt) refl

commit_dataset-rejects_example :
    commit_dataset "d1"
      (record payload { snapshots = ("source.shop.raw.orders", "gone") ∷ [] })
      index
    ≡ err cache_error
commit_dataset-rejects_example =
    commit_dataset-rejects "d1"
      (record payload { snapshots = ("source.shop.raw.orders", "gone") ∷ [] }) index refl

abbrev switched_index : Db
switched_index = record index { snapshots = row "old" 5 false ∷ row "new" 7 true ∷ [] }

activate-refines_example :
    (r : SnapshotIndexRecord) × (get_snapshot "new" index ≡ some r)
    × (active_keys switched_index
        ≡ put "source.shop.raw.orders" r.request_fingerprint "new" (active_keys index))
unfolding activate activate_many activate_all activate_one first_of_test
activate-refines_example =
    activate-refines "source.shop.raw.orders" "new" index switched_index index-IsValid refl
