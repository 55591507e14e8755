-- ===== src/State/Listing.antt =====
-- What `list_snapshots` and deletion keep of the rows.
use dbtv.Common.{
  ℕ, ◌+◌, String, ◌≡◌, refl, ap, true, false, not, ◌==◌, eq_iff, eq_refl, List, [], ◌∷◌, some, ltb,
  keep, sum_of, first_of_test, All, All-imp, All-imp₂, All-intro, Pairwise, arith, inl, inr,
  Bool-cases, some_inj,
}
use dbtv.State.Tables.{
  SnapshotIndexRecord, Db, is_key, place, latest_first, list_snapshots, get_snapshot,
  delete_snapshot,
}
use dbtv.State.Valid.{Apart, IsValid}

abbrev pub OtherKey : SnapshotIndexRecord → SnapshotIndexRecord → Type 0
OtherKey r s = (r.snapshot_key == s.snapshot_key) ≡ false

OtherKey-sym : (r s : SnapshotIndexRecord) → OtherKey r s → OtherKey s r
OtherKey-sym r s h =
    ground (arith, eq_iff r.snapshot_key s.snapshot_key, eq_iff s.snapshot_key r.snapshot_key)

module _ {ℓ} (P : SnapshotIndexRecord → Type ℓ) where
  All-place :
      (r : SnapshotIndexRecord) (rows : List SnapshotIndexRecord)
      → P r
      → All P rows
      → All P (place r rows)
  unfolding place
  All-place r [] p h = (p, tt)
  All-place r (s ∷ rows) p h = elim (Bool-cases (ltb s.created_at r.created_at)) [
    | inl t ↦ rw t (p, h)
    | inr t ↦ rw t (h.0, All-place r rows p h.1)
  ]

  All-latest_first :
      (done rows : List SnapshotIndexRecord)
      → All P done
      → All P rows
      → All P (latest_first done rows)
  unfolding latest_first
  All-latest_first done [] d h = d
  All-latest_first done (r ∷ rows) d h =
      All-latest_first (place r done) rows (All-place r done h.0 d) h.1

  pub All-list_snapshots : (db : Db) → All P db.snapshots → All P (list_snapshots db)
  unfolding list_snapshots
  All-list_snapshots db h = All-latest_first [] db.snapshots tt h

Pairwise-place :
    (r : SnapshotIndexRecord) (rows : List SnapshotIndexRecord)
    → All (OtherKey r) rows
    → Pairwise OtherKey rows
    → Pairwise OtherKey (place r rows)
unfolding place
Pairwise-place r [] a p = (tt, tt)
Pairwise-place r (s ∷ rows) a p = elim (Bool-cases (ltb s.created_at r.created_at)) [
  | inl t ↦ rw t (a, p)
  | inr t ↦
      rw t (All-place (OtherKey s) r rows (OtherKey-sym r s a.0) p.0, Pairwise-place r rows a.1 p.1)
]

Pairwise-latest_first :
    (done rows : List SnapshotIndexRecord)
    → All (λ r. All (OtherKey r) done) rows
    → Pairwise OtherKey done
    → Pairwise OtherKey rows
    → Pairwise OtherKey (latest_first done rows)
unfolding latest_first
Pairwise-latest_first done [] a d p = d
Pairwise-latest_first done (r ∷ rows) a d p =
    Pairwise-latest_first (place r done) rows
      (All-imp₂ (OtherKey r) (λ s. All (OtherKey s) done) (λ s. All (OtherKey s) (place r done))
        (λ s o h. All-place (OtherKey s) r done (OtherKey-sym r s o) h) rows p.0 a.1)
      (Pairwise-place r done a.0 d) p.1

Pairwise-imp : (rows : List SnapshotIndexRecord) → Pairwise Apart rows → Pairwise OtherKey rows
Pairwise-imp [] p = tt
Pairwise-imp (r ∷ rows) p =
    (All-imp (Apart r) (OtherKey r) (λ s (a : Apart r s). a.keys) rows p.0, Pairwise-imp rows p.1)

-- The listing has each key once.
pub list_snapshots-distinct :
    (db : Db) → IsValid db.snapshots → Pairwise OtherKey (list_snapshots db)
unfolding list_snapshots
list_snapshots-distinct db v =
    Pairwise-latest_first [] db.snapshots (All-intro (λ r. Unit {0}) (λ r. tt) db.snapshots) tt
      (Pairwise-imp db.snapshots v.apart)

first_self :
    (rows : List SnapshotIndexRecord)
    → Pairwise Apart rows
    → All (λ r. first_of_test (is_key r.snapshot_key) rows ≡ some r) rows
unfolding first_of_test
first_self [] p = tt
first_self (r ∷ rows) p = (
  rw (eq_refl r.snapshot_key),
  All-imp₂ (Apart r) (λ s. first_of_test (is_key s.snapshot_key) rows ≡ some s)
      (λ s. first_of_test (is_key s.snapshot_key) (r ∷ rows) ≡ some s)
      (λ s (a : Apart r s) e. rw (a.keys) e) rows p.0 (first_self rows p.1),
)

-- Each row listed is the row of its key.
pub list_snapshots-found :
    (db : Db)
    → IsValid db.snapshots
    → All (λ r. get_snapshot r.snapshot_key db ≡ some r) (list_snapshots db)
unfolding get_snapshot
list_snapshots-found db v =
    All-list_snapshots (λ r. first_of_test (is_key r.snapshot_key) db.snapshots ≡ some r) db
      (first_self db.snapshots v.apart)

first-keep :
    (k j : String) (rows : List SnapshotIndexRecord)
    → (k == j) ≡ false
    → first_of_test (is_key j) (keep (λ r. not (is_key k r)) rows) ≡ first_of_test (is_key j) rows
unfolding first_of_test keep
first-keep k j [] h = refl
first-keep k j (r ∷ rows) h =
    ground
      (arith, first-keep k j rows h, eq_iff r.snapshot_key k, eq_iff r.snapshot_key j, eq_iff k j)

-- Deletion of one key leaves the rows of the others.
pub get_snapshot-delete_snapshot :
    (k j : String) (db : Db)
    → (k == j) ≡ false
    → get_snapshot j (delete_snapshot k db) ≡ get_snapshot j db
unfolding get_snapshot delete_snapshot
get_snapshot-delete_snapshot k j db h = first-keep k j db.snapshots h

module _ (f : SnapshotIndexRecord → ℕ) where
  sum-place :
      (r : SnapshotIndexRecord) (rows : List SnapshotIndexRecord)
      → sum_of f (place r rows) ≡ f r + sum_of f rows
  unfolding place
  sum-place r [] = refl
  sum-place r (s ∷ rows) = ground (arith, sum-place r rows)

  sum-latest_first :
      (done rows : List SnapshotIndexRecord)
      → sum_of f (latest_first done rows) ≡ sum_of f done + sum_of f rows
  unfolding latest_first
  sum-latest_first done [] = omega arith
  sum-latest_first done (r ∷ rows) =
      omega (arith, sum-latest_first (place r done) rows, sum-place r done)

  pub sum-list_snapshots : (db : Db) → sum_of f (list_snapshots db) ≡ sum_of f db.snapshots
  unfolding list_snapshots
  sum-list_snapshots db = omega (arith, sum-latest_first [] db.snapshots)

  sum-keep_none :
      (k : String) (r : SnapshotIndexRecord) (rows : List SnapshotIndexRecord)
      → is_key k r ≡ true
      → All (Apart r) rows
      → sum_of f (keep (λ s. not (is_key k s)) rows) ≡ sum_of f rows
  unfolding keep
  sum-keep_none k r [] h a = refl
  sum-keep_none k r (s ∷ rows) h a = ground (
    arith,
    a.0.keys,
    sum-keep_none k r rows h a.1,
    eq_iff r.snapshot_key k,
    eq_iff s.snapshot_key k,
    eq_iff r.snapshot_key s.snapshot_key,
  )

  -- Deletion takes exactly the row of the key.
  pub sum-delete :
      (k : String) (rows : List SnapshotIndexRecord) (row : SnapshotIndexRecord)
      → Pairwise Apart rows
      → first_of_test (is_key k) rows ≡ some row
      → sum_of f (keep (λ r. not (is_key k r)) rows) + f row ≡ sum_of f rows
  unfolding keep first_of_test
  sum-delete k [] row p e = cc
  sum-delete k (r ∷ rows) row p e = elim (Bool-cases (is_key k r)) [
    | inl t ↦ rw t (omega (arith, sum-keep_none k r rows t p.0, ap f (some_inj (rw t at e))))
    | inr t ↦ rw t (omega (arith, sum-delete k rows row p.1 (rw t at e)))
  ]
