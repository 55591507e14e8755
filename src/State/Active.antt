-- ===== src/State/Active.antt =====
-- What `active_snapshot` finds: in a valid index the order of the rows plays no part.
use dbtv.Common.{
  String, ◌≡◌, true, false, eq_iff, List, [], ◌∷◌, some, keep, keep-none, first_of_test, All-imp,
  All-first_of_test, arith, inl, inr, Bool-cases, some_inj, subst, sym, ap,
}
use dbtv.State.Tables.{
  SnapshotIndexRecord, Db, is_key, is_active_of, place, get_snapshot, active_snapshot,
}
use dbtv.State.Valid.{Apart, IsValid}

module _ (source fingerprint : String) where
  -- Beside an active row of the group no other row is one.
  Apart-inactive :
      (r s : SnapshotIndexRecord)
      → Apart r s
      → is_active_of source fingerprint r ≡ true
      → is_active_of source fingerprint s ≡ false
  Apart-inactive r s a h = ground (
    arith,
    a.active,
    eq_iff r.source_unique_id source,
    eq_iff s.source_unique_id source,
    eq_iff r.source_unique_id s.source_unique_id,
    eq_iff r.request_fingerprint fingerprint,
    eq_iff s.request_fingerprint fingerprint,
    eq_iff r.request_fingerprint s.request_fingerprint,
  )

  Apart-inactive_before :
      (r s : SnapshotIndexRecord)
      → Apart r s
      → is_active_of source fingerprint s ≡ true
      → is_active_of source fingerprint r ≡ false
  Apart-inactive_before r s a h = ground (
    arith,
    a.active,
    eq_iff r.source_unique_id source,
    eq_iff s.source_unique_id source,
    eq_iff r.source_unique_id s.source_unique_id,
    eq_iff r.request_fingerprint fingerprint,
    eq_iff s.request_fingerprint fingerprint,
    eq_iff r.request_fingerprint s.request_fingerprint,
  )

  keep_active :
      (k : String) (rows : List SnapshotIndexRecord) (row : SnapshotIndexRecord)
      → IsValid rows
      → first_of_test (is_key k) rows ≡ some row
      → is_active_of source fingerprint row ≡ true
      → keep (is_active_of source fingerprint) rows ≡ row ∷ []
  unfolding keep first_of_test
  keep_active k [] row v e h = cc
  keep_active k (r ∷ rows) row v e h = elim (Bool-cases (is_key k r)) [
    | inl t ↦
        let same : r ≡ row = some_inj (rw t at e) in
        let on : is_active_of source fingerprint r ≡ true =
          subst (λ x. is_active_of source fingerprint x ≡ true) (sym same) h in
        rw on (
          rw
            (keep-none (is_active_of source fingerprint) rows (
              All-imp (Apart r) (λ s. is_active_of source fingerprint s ≡ false)
                (λ s a. Apart-inactive r s a on) rows v.apart.0))
            (ap (λ x. x ∷ []) same))
    | inr t ↦
        let found = rw t at e in
        let (apart, _) = All-first_of_test (Apart r) (is_key k) rows v.apart.0 found in
        rw (Apart-inactive_before r row apart h)
          (keep_active k rows row (record { apart = v.apart.1; sound = v.sound.1 }) found h)
  ]

  -- An active row is what `active_snapshot` returns for its source and request.
  pub active_snapshot_lem :
      (k : String) (db : Db) (row : SnapshotIndexRecord)
      → IsValid db.snapshots
      → get_snapshot k db ≡ some row
      → is_active_of source fingerprint row ≡ true
      → active_snapshot source fingerprint db ≡ some row
  unfolding active_snapshot get_snapshot first_of_test place
  active_snapshot_lem k db row v e h = rw (keep_active k db.snapshots row v e h)
