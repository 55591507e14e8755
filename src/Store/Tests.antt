-- ===== src/Store/Tests.antt =====
-- Runs of the store on an index with two records and a disk that has all files.
use dbtv.Common.{
  ℕ, ◌+◌, ◌≡◌, ◌≢◌, refl, Bool, true, false, [], ◌∷◌, none, some, All, length, keep, first_of_test,
}
use dbtv.Errors.{Result, ok, err, cache_error}
use dbtv.Models.{DatasetSnapshot, auto, cached, SnapshotAction}
use dbtv.State.{
  get_snapshot, active_snapshot, latest_first, place, Db, activate, activate_many, activate_all,
  activate_one, record_snapshot, clear_snapshots, commit_dataset, list_datasets, upsert,
  insert_links, upsert_dataset,
}
use dbtv.State.Valid.{IsValid}
use dbtv.Store.Settings.{Settings, Disk, checksums, observed}
use dbtv.Store.Metadata.{
  metadata, snapshot_from_metadata, projection_of, sampling_strategy, strategy_value, fidelity_mode,
  fidelity_value,
}
use dbtv.Store.Decide.{
  decide, conclude, fetch, usable, load, validate, validate_files, validate_file, pick_record,
  request_fingerprint, is_expired,
}
use dbtv.Store.Collect.{current_size, garbage_collect}
use dbtv.Store.RoundTrip.{snapshot_from_metadata-metadata}
use dbtv.Store.Decisions.{
  IsReusable, is_withdrawn, decide-local_mode, decide-reuse, decide-quarantine,
}
use dbtv.Store.Retention.{garbage_collect-keeps}
use dbtv.Store.Accounting.{garbage_collect-accounts}
use dbtv.Samples.{captured, request, row, index, index-IsValid, payload}
use dbtv.Store.Rebuild.{
  rebuild_index, activate_unscoped, by_completion, commit_datasets, in_order, place_completed,
  place_payload, recover_all, with_sidecars,
}
use dbtv.Store.Rebuilt.{rebuild_index-IsValid}

abbrev pub settings : Settings
settings = record {
  ttl = 100;
  now = 20;
  integrity = checksums;
  retain_previous = 0;
  maximum_size = 1000;
}

abbrev pub disk : Bool → Disk
disk present = record {
  join = λ a b. b;
  parent = λ p. "/cache/new";
  resolve = λ p. p;
  is_relative_to = λ p root. true;
  is_file = λ p. present;
  size = λ p. 10;
  sha256_file = λ p. "sha";
  read_metadata = λ p. some (metadata captured);
  read_observation = λ p.
      observed (record { snapshot_key = "new"; verified_at = 12; expires_at = 60; aware = true });
  hash_request = λ r. "print";
}

snapshot_from_metadata-metadata_example :
    snapshot_from_metadata (metadata captured) "/copy"
    ≡ some (record captured {
      root = "/copy";
      verified_at = none;
      projection = projection_of (some []);
    })
snapshot_from_metadata-metadata_example = snapshot_from_metadata-metadata captured "/copy"

decide-local_mode_example :
    (decide settings (disk true) request "parquet" cached none index).0.action
    ≢ SnapshotAction.refresh
decide-local_mode_example =
    decide-local_mode settings (disk true) request "parquet" cached none index refl

reuses :
    (decide settings (disk true) request "parquet" auto none index).0.action ≡ SnapshotAction.reuse
unfolding decide conclude fetch usable load validate validate_files validate_file pick_record
    request_fingerprint is_expired active_snapshot latest_first place keep metadata
    snapshot_from_metadata sampling_strategy strategy_value fidelity_mode fidelity_value
    first_of_test
reuses = refl

decide-reuse_example :
    (s : DatasetSnapshot) × ((decide settings
        (disk true)
        request
        "parquet"
        auto
        none
        index).0.snapshot
      ≡ some s)
    × IsReusable settings (disk true) request "parquet" auto s
decide-reuse_example = decide-reuse settings (disk true) request "parquet" auto none index reuses

picks :
    pick_record none "source.shop.raw.orders"
      (request_fingerprint (disk false) request "parquet")
      index
    ≡ some (row "old" 5 true)
unfolding pick_record request_fingerprint active_snapshot latest_first place keep first_of_test
picks = refl

is_unusable : usable settings (disk false) "/cache/meta" ≡ err cache_error
unfolding usable load validate validate_files validate_file metadata snapshot_from_metadata
    sampling_strategy strategy_value fidelity_mode fidelity_value
is_unusable = refl

decide-quarantine_example :
    ((decide settings (disk false) request "parquet" auto none index).0.action
      ≢ SnapshotAction.reuse)
    × All
        (λ r. is_withdrawn "old" r ≡ true)
        (decide settings (disk false) request "parquet" auto none index).1.snapshots
decide-quarantine_example =
    decide-quarantine settings (disk false) request "parquet" auto none index (row "old" 5 true)
      picks refl cache_error is_unusable

finds_old : get_snapshot "old" index ≡ some (row "old" 5 true)
unfolding get_snapshot first_of_test
finds_old = refl

garbage_collect-keeps_example :
    get_snapshot "old" (garbage_collect settings none (λ p. true) index).db
    ≡ some (row "old" 5 true)
garbage_collect-keeps_example =
    garbage_collect-keeps settings none (λ p. true) index (row "old" 5 true) index-IsValid finds_old
      refl

garbage_collect-accounts_example :
    (current_size (garbage_collect settings none (λ p. true) index).db
        + (garbage_collect settings none (λ p. true) index).bytes_removed
      ≡ current_size index)
    × (length (garbage_collect settings none (λ p. true) index).db.snapshots
          + (garbage_collect settings none (λ p. true) index).removed
        ≡ length index.snapshots)
    × IsValid (garbage_collect settings none (λ p. true) index).db.snapshots
garbage_collect-accounts_example =
    garbage_collect-accounts settings none (λ p. true) index index-IsValid

abbrev rebuilt : Result ((ℕ × ℕ) × Db)
rebuilt =
    rebuild_index settings (disk true) (λ p. "d1") (λ p. 8) ("/cache/new/metadata.json" ∷ [])
      ((payload, true) ∷ []) index

abbrev rebuilt_index : Db
rebuilt_index = record index {
  snapshots =
      (record (row "new" 7 true) {
        metadata_path = "/cache/new/metadata.json";
        expires_at = some 60;
      })
      ∷ [];
  datasets = (record { dataset_id = "d1"; payload = payload; active = true }) ∷ [];
  dataset_snapshots =
      (record {
        dataset_id = "d0";
        source_unique_id = "source.shop.raw.orders";
        snapshot_key = "old";
      })
      ∷ (record {
        dataset_id = "d1";
        source_unique_id = "source.shop.raw.orders";
        snapshot_key = "new";
      })
      ∷ [];
}

rebuilds : rebuilt ≡ ok ((1, 0), rebuilt_index)
unfolding rebuild_index load snapshot_from_metadata sampling_strategy metadata strategy_value
    fidelity_mode fidelity_value validate validate_file list_datasets record_snapshot
    clear_snapshots commit_dataset activate_all activate_one first_of_test upsert activate
    activate_many insert_links upsert_dataset validate_files activate_unscoped by_completion
    commit_datasets in_order place_completed place_payload recover_all with_sidecars
rebuilds = refl

rebuild_index-IsValid_example : IsValid rebuilt_index.snapshots
rebuild_index-IsValid_example =
    rebuild_index-IsValid settings (disk true) (λ p. "d1") (λ p. 8)
      ("/cache/new/metadata.json" ∷ []) ((payload, true) ∷ []) index rebuilds
