-- ===== src/State/Exclusive.antt =====
-- Activation keeps the invariant of the index.
use dbtv.Common.{
  String, ◌≡◌, true, false, not, ◌&&◌, eq_iff, eq_refl, List, [], ◌∷◌, map, some, first_of_test,
  All, All-imp, All-imp₂, All-map, Pairwise, Pairwise-map, All-first_of_test, arith, inl, inr,
  Bool-cases, Option-cases, subst, some_inj,
}
use dbtv.Errors.{ok, >>=-eq-ok, ok_inj, err-ne-ok}
use dbtv.State.Tables.{SnapshotIndexRecord, committed, row_state_eq, is_key}
use dbtv.State.Valid.{Apart, IsSound, IsValid, Lowers, Lowers-IsValid}
use dbtv.State.Activation.{
  is_candidate, in_group, switched_off, switched_on, activate_one, activate_all,
}

-- A row with the key is committed and of the group.
abbrev pub Fits : String → String → String → SnapshotIndexRecord → Type 0
Fits source fingerprint k r =
    (is_key k r && not (in_group source fingerprint r && row_state_eq r.state committed)) ≡ false

-- No row of the group is active.
abbrev IsOff : String → String → SnapshotIndexRecord → Type 0
IsOff source fingerprint r = (in_group source fingerprint r && r.active) ≡ false

switched_off-Lowers : (source fingerprint : String) → Lowers (switched_off source fingerprint)
switched_off-Lowers source fingerprint = record {
  key = λ r. ground arith;
  origin = λ r. ground arith;
  request = λ r. ground arith;
  active = λ r. ground arith;
  sound = λ r h. ground arith;
}

candidate-Fits :
    (source k : String) (r : SnapshotIndexRecord)
    → is_candidate source k r ≡ true
    → Fits source r.request_fingerprint k r
candidate-Fits source k r h = ground (arith, eq_refl r.request_fingerprint)

Apart-Fits :
    (source fingerprint k : String) (r s : SnapshotIndexRecord)
    → is_key k r ≡ true
    → Apart r s
    → Fits source fingerprint k s
Apart-Fits source fingerprint k r s h a = ground (
  arith,
  a.keys,
  eq_iff r.snapshot_key k,
  eq_iff s.snapshot_key k,
  eq_iff r.snapshot_key s.snapshot_key,
)

candidate-key :
    (source k : String) (r : SnapshotIndexRecord)
    → is_candidate source k r ≡ true
    → is_key k r ≡ true
candidate-key source k r h = ground arith

other-Fits :
    (source fingerprint k : String) (r row : SnapshotIndexRecord)
    → is_key k row ≡ true
    → Apart r row
    → Fits source fingerprint k r
other-Fits source fingerprint k r row h a = ground (
  arith,
  a.keys,
  eq_iff r.snapshot_key k,
  eq_iff row.snapshot_key k,
  eq_iff r.snapshot_key row.snapshot_key,
)

-- Only the row that was found has the key.
pub All-Fits :
    (source k : String) (rows : List SnapshotIndexRecord) (row : SnapshotIndexRecord)
    → Pairwise Apart rows
    → first_of_test (is_candidate source k) rows ≡ some row
    → All (Fits source row.request_fingerprint k) rows
unfolding first_of_test
All-Fits source k [] row v e = tt
All-Fits source k (r ∷ rows) row v e = elim (Bool-cases (is_candidate source k r)) [
  | inl t ↦
      subst (λ x. All (Fits source x.request_fingerprint k) (r ∷ rows)) (some_inj (rw t at e))
        (
          candidate-Fits source k r t,
          All-imp (Apart r) (Fits source r.request_fingerprint k)
              (λ s. Apart-Fits source r.request_fingerprint k r s (candidate-key source k r t)) rows
              v.0,
        )
  | inr t ↦
      let (apart, found) =
        All-first_of_test (Apart r) (is_candidate source k) rows v.0 (rw t at e) in
      (
        other-Fits source row.request_fingerprint k r row (candidate-key source k row found) apart,
        All-Fits source k rows row v.1 (rw t at e),
      )
]

switched_on-Apart :
    (source fingerprint k : String) (r s : SnapshotIndexRecord)
    → Fits source fingerprint k r × IsOff source fingerprint r
    → Fits source fingerprint k s × IsOff source fingerprint s
    → Apart r s
    → Apart (switched_on k r) (switched_on k s)
switched_on-Apart source fingerprint k r s p q a = record {
  keys = ground (arith, a.keys);
  active = ground (
    arith,
    a.keys,
    a.active,
    eq_iff r.snapshot_key k,
    eq_iff s.snapshot_key k,
    eq_iff r.snapshot_key s.snapshot_key,
    eq_iff r.source_unique_id source,
    eq_iff s.source_unique_id source,
    eq_iff r.source_unique_id s.source_unique_id,
    eq_iff r.request_fingerprint fingerprint,
    eq_iff s.request_fingerprint fingerprint,
    eq_iff r.request_fingerprint s.request_fingerprint,
  );
}

-- After the first update no row of the group is active.
switched_off-IsOff :
    (source fingerprint k : String) (r : SnapshotIndexRecord)
    → Fits source fingerprint k r
    → Fits source fingerprint k (switched_off source fingerprint r)
      × IsOff source fingerprint (switched_off source fingerprint r)
switched_off-IsOff source fingerprint k r h = (ground arith, ground arith)

switched_on-IsSound :
    (source fingerprint k : String) (r : SnapshotIndexRecord)
    → Fits source fingerprint k r × IsSound r
    → IsSound (switched_on k r)
switched_on-IsSound source fingerprint k r h = ground arith

-- Both updates, given that only the row found has the key.
switch-IsValid :
    (source fingerprint k : String) (rows : List SnapshotIndexRecord)
    → IsValid rows
    → All (Fits source fingerprint k) rows
    → IsValid (map (switched_on k) (map (switched_off source fingerprint) rows))
switch-IsValid source fingerprint k rows v fits =
    let off = map (switched_off source fingerprint) rows in
    let valid : IsValid off =
      Lowers-IsValid (switched_off source fingerprint) (switched_off-Lowers source fingerprint) rows
        v in
    let ready : All (λ r. Fits source fingerprint k r × IsOff source fingerprint r) off =
      All-map (λ r. Fits source fingerprint k r × IsOff source fingerprint r)
        (switched_off source fingerprint) rows
        (All-imp (Fits source fingerprint k)
          (λ r.
            Fits source fingerprint k (switched_off source fingerprint r)
            × IsOff source fingerprint (switched_off source fingerprint r))
          (switched_off-IsOff source fingerprint k) rows fits) in
    record {
      apart =
          Pairwise-map Apart (λ r. Fits source fingerprint k r × IsOff source fingerprint r)
            (switched_on k) (switched_on-Apart source fingerprint k) off ready valid.apart;
      sound = All-map IsSound (switched_on k) off (
          All-imp₂ (λ r. Fits source fingerprint k r × IsOff source fingerprint r) IsSound
            (λ r. IsSound (switched_on k r))
            (λ r p h. switched_on-IsSound source fingerprint k r (p.0, h)) off ready valid.sound);
    }

pub activate_one-IsValid :
    (source k : String) (rows : List SnapshotIndexRecord) {after : List SnapshotIndexRecord}
    → IsValid rows
    → activate_one source k rows ≡ ok after
    → IsValid after
unfolding activate_one
activate_one-IsValid source k rows v e =
    elim (Option-cases (first_of_test (is_candidate source k) rows)) [
      | inl n ↦ err-ne-ok (rw (n, activate_one) at e)
      | inr (row, h) ↦ subst IsValid (ok_inj (rw (h, activate_one) at e)) (
          switch-IsValid source row.request_fingerprint k rows v
            (All-Fits source k rows row v.apart h))
    ]

pub activate_all-IsValid :
    (snapshots : List (String × String)) (rows : List SnapshotIndexRecord)
    {after : List SnapshotIndexRecord}
    → IsValid rows
    → activate_all snapshots rows ≡ ok after
    → IsValid after
unfolding activate_all
activate_all-IsValid [] rows v e = subst IsValid (ok_inj e) v
activate_all-IsValid ((source, k) ∷ rest) rows v e =
    let (next, one, others) = >>=-eq-ok (activate_one source k rows) (activate_all rest) e in
    activate_all-IsValid rest next (activate_one-IsValid source k rows v one) others
