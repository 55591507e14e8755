-- ===== src/Store/Retention.antt =====
-- What garbage collection keeps.
use dbtv.Common.{
  ℕ, suc, ◌+◌, ◌<◌, String, ◌≡◌, refl, sym, ap, subst, ◌∙◌, Bool, true, false, ◌||◌, ◌==◌, eq_iff,
  eq_refl, List, [], ◌∷◌, Option, some, if◌then◌else◌, ltb, lt→ltb, ltb→lt, member, lookup,
  lookup-insert, All, All-imp, All-imp₂, Pairwise, arith, inl, inr, Bool-cases, some_inj,
}
use dbtv.State.{SnapshotIndexRecord, Db, is_key, list_snapshots, get_snapshot, dataset_references}
use dbtv.State.Valid.{IsValid}
use dbtv.State.Listing.{
  OtherKey, list_snapshots-distinct, list_snapshots-found, get_snapshot-delete_snapshot,
}
use native.Mathlib.Nat.{zero-add}
use dbtv.Store.Settings.{Settings}
use dbtv.Store.Metadata.{get_or}
use dbtv.Store.Collect.{
  Collection, retained, is_kept, collect_record, collect_records, started, garbage_collect,
}

-- How many records of the source stand before the record with the key.
abbrev pub ahead : String → String → List SnapshotIndexRecord → ℕ
ahead k source [] = 0
ahead k source (r ∷ rs) =
    if is_key k r then 0 else (if r.source_unique_id == source then 1 else 0) + ahead k source rs

-- A record that garbage collection must keep: active, pinned, in a dataset, or one of the
-- `retain_previous` latest of its source.
abbrev pub is_protected : ℕ → List String → List SnapshotIndexRecord → SnapshotIndexRecord → Bool
is_protected limit referenced records r =
    r.active
    || r.pinned
    || member r.snapshot_key referenced
    || ltb (ahead r.snapshot_key r.source_unique_id records) limit

module _ (settings : Settings) (older_than : Option ℕ) (inside : String → Bool)
    (referenced : List String) where
  abbrev pub step : SnapshotIndexRecord → Collection → Collection
  step = collect_record settings older_than inside referenced

  abbrev steps : List SnapshotIndexRecord → Collection → Collection
  steps = collect_records settings older_than inside referenced

  other-step :
      (r : SnapshotIndexRecord) (c : Collection) (k : String)
      → is_key k r ≡ false
      → get_snapshot k (step r c).db ≡ get_snapshot k c.db
  unfolding collect_record
  other-step r c k h = ground (arith, get_snapshot-delete_snapshot r.snapshot_key k c.db h)

  -- Records of other keys leave the row.
  others-steps :
      (rs : List SnapshotIndexRecord) (c : Collection) (k : String)
      → All (λ r. is_key k r ≡ false) rs
      → get_snapshot k (steps rs c).db ≡ get_snapshot k c.db
  unfolding collect_records
  others-steps [] c k h = refl
  others-steps (r ∷ rs) c k h = others-steps rs (step r c) k h.1 ∙ other-step r c k h.0

  kept-step :
      (r : SnapshotIndexRecord) (c : Collection)
      → is_kept settings older_than inside referenced c r ≡ true
      → (step r c).db ≡ c.db
  unfolding collect_record
  kept-step r c h = ground (arith, h)

  -- One more record of a source counts for one at most.
  retained-step :
      (r s : SnapshotIndexRecord) (c : Collection)
      → retained (step r c) s
        < suc (retained c s + (if r.source_unique_id == s.source_unique_id then 1 else 0))
  unfolding collect_record
  retained-step r s c = elim (Bool-cases (r.source_unique_id == s.source_unique_id)) [
    | inl t ↦ ground (
      arith,
      t,
      lookup-insert r.source_unique_id s.source_unique_id (retained c r + 1) c.retained_by_source,
      ap (λ x. get_or (lookup x c.retained_by_source) 0)
          ((eq_iff r.source_unique_id s.source_unique_id).0 t),
    )
    | inr t ↦ ground (
      arith,
      t,
      lookup-insert r.source_unique_id s.source_unique_id (retained c r + 1) c.retained_by_source,
    )
  ]

  -- The test on the counts goes on holding while records of other keys are passed.
  ahead-step :
      (r : SnapshotIndexRecord) (rs : List SnapshotIndexRecord) (s : SnapshotIndexRecord)
      (c : Collection)
      → is_key s.snapshot_key r ≡ false
      → ltb
          (retained c s + ahead s.snapshot_key s.source_unique_id (r ∷ rs))
          settings.retain_previous
        ≡ true
      → ltb
          (retained (step r c) s + ahead s.snapshot_key s.source_unique_id rs)
          settings.retain_previous
        ≡ true
  ahead-step r rs s c t h = elim (Bool-cases (r.source_unique_id == s.source_unique_id)) [
    | inl u ↦ lt→ltb _ _ (omega (arith, ltb→lt _ _ (rw (t, u) at h), rw u at (retained-step r s c)))
    | inr u ↦ lt→ltb _ _ (omega (arith, ltb→lt _ _ (rw (t, u) at h), rw u at (retained-step r s c)))
  ]

  abbrev deserves : Collection → List SnapshotIndexRecord → SnapshotIndexRecord → Bool
  deserves c rs s =
      s.active
      || s.pinned
      || member s.snapshot_key referenced
      || ltb (retained c s + ahead s.snapshot_key s.source_unique_id rs) settings.retain_previous

  deserves-step :
      (r : SnapshotIndexRecord) (rs : List SnapshotIndexRecord) (s : SnapshotIndexRecord)
      (c : Collection)
      → is_key s.snapshot_key r ≡ false
      → deserves c (r ∷ rs) s ≡ true
      → deserves (step r c) rs s ≡ true
  deserves-step r rs s c t h =
      elim (Bool-cases (s.active || s.pinned || member s.snapshot_key referenced)) [
        | inl u ↦ ground (arith, u)
        | inr u ↦ ground (arith, u, h, ahead-step r rs s c t (ground (arith, u, h)))
      ]

  deserves-kept :
      (s : SnapshotIndexRecord) (rs : List SnapshotIndexRecord) (c : Collection)
      → deserves c (s ∷ rs) s ≡ true
      → is_kept settings older_than inside referenced c s ≡ true
  deserves-kept s rs c h = ground (arith, h, eq_refl s.snapshot_key)

  same_row :
      (r s : SnapshotIndexRecord) (db : Db)
      → is_key s.snapshot_key r ≡ true
      → get_snapshot r.snapshot_key db ≡ some r
      → get_snapshot s.snapshot_key db ≡ some s
      → r ≡ s
  same_row r s db t e f =
      some_inj
        (sym e ∙ ap (λ k. get_snapshot k db) ((eq_iff r.snapshot_key s.snapshot_key).0 t) ∙ f)

  OtherKey-is_key : (r t : SnapshotIndexRecord) → OtherKey r t → is_key r.snapshot_key t ≡ false
  OtherKey-is_key r t h =
      ground (arith, eq_iff r.snapshot_key t.snapshot_key, eq_iff t.snapshot_key r.snapshot_key)

  -- The rows of the records to come are still there after a record is passed.
  pub found-step :
      (r : SnapshotIndexRecord) (rs : List SnapshotIndexRecord) (c : Collection)
      → All (OtherKey r) rs
      → All (λ t. get_snapshot t.snapshot_key c.db ≡ some t) rs
      → All (λ t. get_snapshot t.snapshot_key (step r c).db ≡ some t) rs
  found-step r rs c d f =
      All-imp₂ (OtherKey r) (λ t. get_snapshot t.snapshot_key c.db ≡ some t)
        (λ t. get_snapshot t.snapshot_key (step r c).db ≡ some t)
        (λ t o e. other-step r c t.snapshot_key o ∙ e) rs d f

  keep-own :
      (s : SnapshotIndexRecord) (rs : List SnapshotIndexRecord) (c : Collection)
      → All (OtherKey s) rs
      → get_snapshot s.snapshot_key c.db ≡ some s
      → deserves c (s ∷ rs) s ≡ true
      → get_snapshot s.snapshot_key (steps rs (step s c)).db ≡ some s
  keep-own s rs c d e p =
      others-steps rs (step s c) s.snapshot_key
        (All-imp (OtherKey s) (λ t. is_key s.snapshot_key t ≡ false) (OtherKey-is_key s) rs d)
      ∙ ap (λ (db : Db). get_snapshot s.snapshot_key db) (kept-step s c (deserves-kept s rs c p))
      ∙ e

  steps-keep :
      (rs : List SnapshotIndexRecord) (c : Collection) (s : SnapshotIndexRecord)
      → Pairwise OtherKey rs
      → All (λ r. get_snapshot r.snapshot_key c.db ≡ some r) rs
      → get_snapshot s.snapshot_key c.db ≡ some s
      → deserves c rs s ≡ true
      → get_snapshot s.snapshot_key (steps rs c).db ≡ some s
  unfolding collect_records
  steps-keep [] c s d f e p = e
  steps-keep (r ∷ rs) c s d f e p = elim (Bool-cases (is_key s.snapshot_key r)) [
    | inl t ↦
        let same : r ≡ s = same_row r s c.db t f.0 e in
        rw same (
          keep-own s rs c (subst (λ x. All (OtherKey x) rs) same d.0) e
            (subst (λ x. deserves c (x ∷ rs) s ≡ true) same p))
    | inr t ↦
        steps-keep rs (step r c) s d.1 (found-step r rs c d.0 f.1)
          (other-step r c s.snapshot_key t ∙ e) (deserves-step r rs s c t p)
  ]

-- In a valid index garbage collection keeps the record of every key that is active, pinned, part of
-- a dataset, or among the `retain_previous` latest of its source, whatever the age limit is.
pub garbage_collect-keeps :
    (settings : Settings) (older_than : Option ℕ) (inside : String → Bool) (db : Db)
    (r : SnapshotIndexRecord)
    → IsValid db.snapshots
    → get_snapshot r.snapshot_key db ≡ some r
    → is_protected settings.retain_previous (dataset_references db) (list_snapshots db) r ≡ true
    → get_snapshot r.snapshot_key (garbage_collect settings older_than inside db).db ≡ some r
unfolding garbage_collect lookup
garbage_collect-keeps settings older_than inside db r v e p =
    steps-keep settings older_than inside (dataset_references db) (list_snapshots db) (started db) r
      (list_snapshots-distinct db v) (list_snapshots-found db v) e (rw zero-add p)
