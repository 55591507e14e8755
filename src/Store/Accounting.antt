-- ===== src/Store/Accounting.antt =====
-- What garbage collection counts.
use dbtv.Common.{
  ℕ, ◌+◌, String, ◌≡◌, refl, sym, subst, ◌∙◌, Bool, not, List, [], ◌∷◌, Option, some, length,
  sum_of, All, Pairwise, arith, inl, inr, ◌⊎◌,
}
use dbtv.State.{
  SnapshotIndexRecord, Db, is_key, list_snapshots, get_snapshot, delete_snapshot,
  dataset_references,
}
use dbtv.State.Valid.{IsValid, keep-IsValid}
use dbtv.State.Listing.{
  OtherKey, list_snapshots-distinct, list_snapshots-found, sum-list_snapshots, sum-delete,
}
use dbtv.Store.Retention.{found-step}
use dbtv.Store.Settings.{Settings}
use dbtv.Store.Collect.{
  current_size, Collection, collect_record, collect_records, started, garbage_collect,
}

module _ (settings : Settings) (older_than : Option ℕ) (inside : String → Bool)
    (referenced : List String) where
  abbrev bytes : SnapshotIndexRecord → ℕ
  bytes r = r.byte_count

  count-step :
      (f : SnapshotIndexRecord → ℕ) (r : SnapshotIndexRecord) (c : Collection)
      → IsValid c.db.snapshots
      → get_snapshot r.snapshot_key c.db ≡ some r
      → sum_of f (delete_snapshot r.snapshot_key c.db).snapshots + f r ≡ sum_of f c.db.snapshots
  unfolding delete_snapshot get_snapshot
  count-step f r c v e = sum-delete f r.snapshot_key c.db.snapshots r v.apart e

  account-step :
      (r : SnapshotIndexRecord) (c : Collection)
      → IsValid c.db.snapshots
      → get_snapshot r.snapshot_key c.db ≡ some r
      → let c' = collect_record settings older_than inside referenced r c in
        (sum_of bytes c'.db.snapshots + c'.bytes_removed
          ≡ sum_of bytes c.db.snapshots + c.bytes_removed)
        × (sum_of (λ r. 1) c'.db.snapshots + c'.removed
            ≡ sum_of (λ r. 1) c.db.snapshots + c.removed)
  unfolding collect_record
  account-step r c v e =
      (ground (arith, count-step bytes r c v e), ground (arith, count-step (λ r. 1) r c v e))

  step-cases :
      (r : SnapshotIndexRecord) (c : Collection)
      → ((collect_record settings older_than inside referenced r c).db ≡ c.db)
        ⊎ ((collect_record settings older_than inside referenced r c).db
            ≡ delete_snapshot r.snapshot_key c.db)
  unfolding collect_record
  step-cases r c = ground arith

  delete-IsValid :
      (k : String) (db : Db) → IsValid db.snapshots → IsValid (delete_snapshot k db).snapshots
  unfolding delete_snapshot
  delete-IsValid k db v = keep-IsValid (λ r. not (is_key k r)) db.snapshots v

  IsValid-step :
      (r : SnapshotIndexRecord) (c : Collection)
      → IsValid c.db.snapshots
      → IsValid (collect_record settings older_than inside referenced r c).db.snapshots
  IsValid-step r c v = elim (step-cases r c) [
    | inl e ↦ subst (λ (db : Db). IsValid db.snapshots) (sym e) v
    | inr e ↦
        subst (λ (db : Db). IsValid db.snapshots) (sym e) (delete-IsValid r.snapshot_key c.db v)
  ]

  -- What the loop counts is what it takes from the table.
  account-steps :
      (rs : List SnapshotIndexRecord) (c : Collection)
      → Pairwise OtherKey rs
      → All (λ r. get_snapshot r.snapshot_key c.db ≡ some r) rs
      → IsValid c.db.snapshots
      → let c' = collect_records settings older_than inside referenced rs c in
        (sum_of bytes c'.db.snapshots + c'.bytes_removed
          ≡ sum_of bytes c.db.snapshots + c.bytes_removed)
        × (sum_of (λ r. 1) c'.db.snapshots + c'.removed
            ≡ sum_of (λ r. 1) c.db.snapshots + c.removed)
        × IsValid c'.db.snapshots
  unfolding collect_records
  account-steps [] c d f v = (refl, refl, v)
  account-steps (r ∷ rs) c d f v =
      let (b, n, w) =
        account-steps rs (collect_record settings older_than inside referenced r c) d.1
          (found-step settings older_than inside referenced r rs c d.0 f.1) (IsValid-step r c v) in
      let (b', n') = account-step r c v f.0 in (b ∙ b', n ∙ n', w)

sum-one : (rows : List SnapshotIndexRecord) → sum_of (λ r. 1) rows ≡ length rows
sum-one [] = refl
sum-one (r ∷ rows) = omega (arith, sum-one rows)

-- In a valid index the reported bytes and the reported number of snapshots are what the cache lost
-- in size and in records, and the index stays valid.
pub garbage_collect-accounts :
    (settings : Settings) (older_than : Option ℕ) (inside : String → Bool) (db : Db)
    → IsValid db.snapshots
    → (current_size (garbage_collect settings older_than inside db).db
          + (garbage_collect settings older_than inside db).bytes_removed
        ≡ current_size db)
      × (length (garbage_collect settings older_than inside db).db.snapshots
            + (garbage_collect settings older_than inside db).removed
          ≡ length db.snapshots)
      × IsValid (garbage_collect settings older_than inside db).db.snapshots
unfolding garbage_collect current_size
garbage_collect-accounts settings older_than inside db v =
    let (b, n, w) =
      account-steps settings older_than inside (dataset_references db) (list_snapshots db)
        (started db) (list_snapshots-distinct db v) (list_snapshots-found db v) v in
    let after = (garbage_collect settings older_than inside db).db in
    (
      omega (
        arith,
        b,
        sum-list_snapshots (λ r. r.byte_count) db,
        sum-list_snapshots (λ r. r.byte_count) after,
      ),
      omega (arith, n, sum-one after.snapshots, sum-one db.snapshots),
      w,
    )
