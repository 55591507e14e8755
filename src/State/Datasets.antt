-- ===== src/State/Datasets.antt =====
-- Publication of a dataset as a whole: when it succeeds, what it changes and what it publishes.
use dbtv.Common.{
  String, ◌≡◌, refl, Bool, true, false, not, ◌&&◌, ◌==◌, eq_refl, List, [], ◌∷◌, ◌++◌, map, some,
  any_of, any_of-map, all_of, first_of_any, first_of_none, All, All-imp, Pairwise, arith, inl, inr,
  Bool-cases, subst, ◌∙◌,
}
use dbtv.Errors.{ok, err, cache_error}
use dbtv.State.Tables.{
  SnapshotIndexRecord, Payload, DatasetRow, Link, Db, get_snapshot, active_snapshot,
}
use dbtv.State.Activation.{
  is_candidate, switched_off, switched_on, activate_one, activate_all, retired, upsert_dataset,
  is_link, insert_links, commit_dataset, is_dataset,
}
use dbtv.State.Valid.{IsValid}
use dbtv.State.Exclusive.{activate_all-IsValid}
use dbtv.State.Active.{active_snapshot_lem}
use dbtv.State.Publication.{IsPublished, DiffersFrom, activate_all-publishes}

-- Every snapshot of the list stands in the table, committed and of its source.
abbrev pub are_candidates : List (String × String) → List SnapshotIndexRecord → Bool
are_candidates snapshots rows = all_of (λ p. any_of (is_candidate p.0 p.1) rows) snapshots

candidate-switched_off :
    (source fingerprint s k : String) (r : SnapshotIndexRecord)
    → is_candidate s k (switched_off source fingerprint r) ≡ is_candidate s k r
candidate-switched_off source fingerprint s k r = ground arith

candidate-switched_on :
    (j s k : String) (r : SnapshotIndexRecord)
    → is_candidate s k (switched_on j r) ≡ is_candidate s k r
candidate-switched_on j s k r = ground arith

candidates-switch :
    (source fingerprint j : String) (rows : List SnapshotIndexRecord)
    (snapshots : List (String × String))
    → are_candidates snapshots (map (switched_on j) (map (switched_off source fingerprint) rows))
      ≡ are_candidates snapshots rows
candidates-switch source fingerprint j rows [] = refl
candidates-switch source fingerprint j rows ((s, k) ∷ rest) =
    let off = map (switched_off source fingerprint) rows in
    rw (
      any_of-map (is_candidate s k) (switched_on j) (candidate-switched_on j s k) off,
      any_of-map (is_candidate s k) (switched_off source fingerprint)
          (candidate-switched_off source fingerprint s k) rows,
      candidates-switch source fingerprint j rows rest,
    )

-- Activation succeeds exactly if all are candidates.
pub activate_all_ok :
    (snapshots : List (String × String)) (rows : List SnapshotIndexRecord)
    → are_candidates snapshots rows ≡ true
    → (after : List SnapshotIndexRecord) × (activate_all snapshots rows ≡ ok after)
unfolding activate_all activate_one
activate_all_ok [] rows h = (rows, refl)
activate_all_ok ((s, k) ∷ rest) rows h = elim (Bool-cases (any_of (is_candidate s k) rows)) [
  | inl t ↦
      let (row, found) = first_of_any (is_candidate s k) rows t in
      rw (found, activate_one)
        (activate_all_ok rest _
          (candidates-switch s row.request_fingerprint k rows rest ∙ (rw t at h)))
  | inr t ↦ cc (rw t at h)
]

pub activate_all_err :
    (snapshots : List (String × String)) (rows : List SnapshotIndexRecord)
    → are_candidates snapshots rows ≡ false
    → activate_all snapshots rows ≡ err cache_error
unfolding activate_all activate_one
activate_all_err [] rows h = cc
activate_all_err ((s, k) ∷ rest) rows h = elim (Bool-cases (any_of (is_candidate s k) rows)) [
  | inl t ↦
      let (row, found) = first_of_any (is_candidate s k) rows t in
      rw (found, activate_one)
        (activate_all_err rest _
          (candidates-switch s row.request_fingerprint k rows rest ∙ (rw t at h)))
  | inr t ↦ rw (first_of_none (is_candidate s k) rows t, activate_one)
]

-- The rows of `datasets` after the upsert.
retired-inactive : (ds : List DatasetRow) → All (λ d. d.active ≡ false) (map retired ds)
retired-inactive [] = tt
retired-inactive (d ∷ ds) = (refl, retired-inactive ds)

abbrev is_other_active : String → DatasetRow → Bool
is_other_active id d = d.active && not (is_dataset id d)

abbrev is_current : String → DatasetRow → Bool
is_current id d = d.active && is_dataset id d

inactive-sole : (id : String) (d : DatasetRow) → d.active ≡ false → is_other_active id d ≡ false
inactive-sole id d h = ground arith

upsert_dataset-sole :
    (id : String) (payload : Payload) (ds : List DatasetRow)
    → All (λ d. d.active ≡ false) ds
    → All (λ d. is_other_active id d ≡ false) (upsert_dataset id payload ds)
unfolding upsert_dataset
upsert_dataset-sole id payload [] h = (ground (arith, eq_refl id), tt)
upsert_dataset-sole id payload (d ∷ ds) h = elim (Bool-cases (d.dataset_id == id)) [
  | inl t ↦ rw t (
    ground (arith, t),
    All-imp (λ r. r.active ≡ false) (λ r. is_other_active id r ≡ false) (inactive-sole id) ds h.1,
  )
  | inr t ↦ rw t (inactive-sole id d h.0, upsert_dataset-sole id payload ds h.1)
]

upsert_dataset-current :
    (id : String) (payload : Payload) (ds : List DatasetRow)
    → any_of (is_current id) (upsert_dataset id payload ds) ≡ true
unfolding upsert_dataset
upsert_dataset-current id payload [] = ground (arith, eq_refl id)
upsert_dataset-current id payload (d ∷ ds) = elim (Bool-cases (d.dataset_id == id)) [
  | inl t ↦ rw t (ground (arith, t))
  | inr t ↦ rw t (ground (arith, upsert_dataset-current id payload ds))
]

-- Links are only added, and each source of the dataset has one.
any_of-snoc :
    (id source : String) (links : List Link) (l : Link)
    → any_of (is_link id source) links ≡ true
    → any_of (is_link id source) (links ++ l ∷ []) ≡ true
any_of-snoc id source [] l h = cc
any_of-snoc id source (m ∷ links) l h = elim (Bool-cases (is_link id source m)) [
  | inl t ↦ rw t
  | inr t ↦ rw t (any_of-snoc id source links l (rw t at h))
]

any_of-last :
    (id source : String) (links : List Link) (l : Link)
    → is_link id source l ≡ true
    → any_of (is_link id source) (links ++ l ∷ []) ≡ true
any_of-last id source [] l h = rw h
any_of-last id source (m ∷ links) l h = elim (Bool-cases (is_link id source m)) [
  | inl t ↦ rw t
  | inr t ↦ rw t (any_of-last id source links l h)
]

insert_links-keeps :
    (id source : String) (snapshots : List (String × String)) (links : List Link)
    → any_of (is_link id source) links ≡ true
    → any_of (is_link id source) (insert_links id snapshots links) ≡ true
unfolding insert_links
insert_links-keeps id source [] links h = h
insert_links-keeps id source ((s, k) ∷ rest) links h =
    elim (Bool-cases (any_of (is_link id s) links)) [
      | inl t ↦ rw t (insert_links-keeps id source rest links h)
      | inr t ↦ rw t (insert_links-keeps id source rest _ (any_of-snoc id source links _ h))
    ]

insert_links-linked :
    (id : String) (snapshots : List (String × String)) (links after : List Link)
    → insert_links id snapshots links ≡ after
    → All (λ p. any_of (is_link id p.0) after ≡ true) snapshots
unfolding insert_links
insert_links-linked id [] links after e = tt
insert_links-linked id ((s, k) ∷ rest) links after e =
    elim (Bool-cases (any_of (is_link id s) links)) [
      | inl t ↦
          let e' : insert_links id rest links ≡ after = rw t at e in
          (
            subst (λ l. any_of (is_link id s) l ≡ true) e' (insert_links-keeps id s rest links t),
            insert_links-linked id rest links after e',
          )
      | inr t ↦
          let new : Link = record { dataset_id = id; source_unique_id = s; snapshot_key = k } in
          let e' : insert_links id rest (links ++ new ∷ []) ≡ after = rw t at e in
          (
            subst (λ l. any_of (is_link id s) l ≡ true) e'
                (insert_links-keeps id s rest (links ++ new ∷ [])
                  (any_of-last id s links new (ground (arith, eq_refl id, eq_refl s)))),
            insert_links-linked id rest (links ++ new ∷ []) after e',
          )
    ]

-- Each snapshot of the payload is the active one of its source and request; the dataset is active
-- and no other is; and each source of the payload is linked to the dataset.
pub record IsPublishedDataset (id : String) (payload : Payload) (db : Db) : Type 0 where
  pub members :
      All
        (λ p.
          (row : SnapshotIndexRecord) × (get_snapshot p.1 db ≡ some row)
          × (active_snapshot p.0 row.request_fingerprint db ≡ some row))
        payload.snapshots
  pub current : any_of (is_current id) db.datasets ≡ true
  pub sole : All (λ d. is_other_active id d ≡ false) db.datasets
  pub linked : All (λ p. any_of (is_link id p.0) db.dataset_snapshots ≡ true) payload.snapshots

member-active :
    (db : Db) (p : String × String)
    → IsValid db.snapshots
    → IsPublished p.0 p.1 db.snapshots
    → (row : SnapshotIndexRecord) × (get_snapshot p.1 db ≡ some row)
      × (active_snapshot p.0 row.request_fingerprint db ≡ some row)
unfolding get_snapshot
member-active db p v (row, found, on) =
    (row, found, active_snapshot_lem p.0 row.request_fingerprint p.1 db row v found on)

commit-published :
    (id : String) (payload : Payload) (db : Db) (rows : List SnapshotIndexRecord)
    → IsValid db.snapshots
    → Pairwise DiffersFrom payload.snapshots
    → activate_all payload.snapshots db.snapshots ≡ ok rows
    → IsPublishedDataset id payload (record db {
      snapshots = rows;
      datasets = upsert_dataset id payload (map retired db.datasets);
      dataset_snapshots = insert_links id payload.snapshots db.dataset_snapshots;
    })
commit-published id payload db rows v d e = record {
  members =
      All-imp (λ p. IsPublished p.0 p.1 rows) _
        (λ p. member-active _ p (activate_all-IsValid payload.snapshots db.snapshots v e))
        payload.snapshots (activate_all-publishes payload.snapshots db.snapshots d v e);
  current = upsert_dataset-current id payload (map retired db.datasets);
  sole = upsert_dataset-sole id payload (map retired db.datasets) (retired-inactive db.datasets);
  linked = insert_links-linked id payload.snapshots db.dataset_snapshots _ refl;
}

-- In a valid index a dataset whose snapshots are all committed rows of their sources is committed,
-- and what the call leaves publishes it.
pub commit_dataset-publishes :
    (id : String) (payload : Payload) (db : Db)
    → IsValid db.snapshots
    → Pairwise DiffersFrom payload.snapshots
    → are_candidates payload.snapshots db.snapshots ≡ true
    → (after : Db) × (commit_dataset id payload db ≡ ok after) × IsPublishedDataset id payload after
unfolding commit_dataset
commit_dataset-publishes id payload db v d c =
    let (rows, e) = activate_all_ok payload.snapshots db.snapshots c in
    (_, rw e, commit-published id payload db rows v d e)

-- A dataset with a snapshot that is missing, corrupt or of another source raises CacheError.
pub commit_dataset-rejects :
    (id : String) (payload : Payload) (db : Db)
    → are_candidates payload.snapshots db.snapshots ≡ false
    → commit_dataset id payload db ≡ err cache_error
unfolding commit_dataset
commit_dataset-rejects id payload db c = rw (activate_all_err payload.snapshots db.snapshots c)
