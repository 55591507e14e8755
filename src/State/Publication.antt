-- ===== src/State/Publication.antt =====
-- What a committed dataset publishes: each of its snapshots is the active one of its source and
-- request, and the dataset is the active one.
use dbtv.Common.{
  String, ◌≡◌, true, false, ◌==◌, eq_iff, eq_refl, List, [], ◌∷◌, map, some, first_of_test,
  first_of_test-map, All, All-first_of_test, All-intro, Pairwise, arith, inl, inr, Bool-cases,
  Option-cases, subst,
}
use dbtv.Errors.{ok, >>=-eq-ok, ok_inj, err-ne-ok}
use dbtv.State.Tables.{SnapshotIndexRecord, is_key, is_active_of}
use dbtv.State.Activation.{is_candidate, switched_off, switched_on, activate_one, activate_all}
use dbtv.State.Valid.{Apart, IsValid}
use dbtv.State.Exclusive.{activate_one-IsValid}

-- The row of the key is active, committed and of the source.
abbrev pub IsPublished : String → String → List SnapshotIndexRecord → Type 0
IsPublished source k rows =
    (row : SnapshotIndexRecord) × (first_of_test (is_key k) rows ≡ some row)
    × (is_active_of source row.request_fingerprint row ≡ true)

candidate-key :
    (source k : String) (r : SnapshotIndexRecord)
    → is_candidate source k r ≡ true
    → is_key k r ≡ true
candidate-key source k r h = ground arith

Apart-key :
    (k : String) (r s : SnapshotIndexRecord) → Apart r s → is_key k s ≡ true → is_key k r ≡ false
Apart-key k r s a h = ground (
  arith,
  a.keys,
  eq_iff r.snapshot_key k,
  eq_iff s.snapshot_key k,
  eq_iff r.snapshot_key s.snapshot_key,
)

-- The candidate that activation finds is the row of the key.
pub candidate-first :
    (source k : String) (rows : List SnapshotIndexRecord) (row : SnapshotIndexRecord)
    → Pairwise Apart rows
    → first_of_test (is_candidate source k) rows ≡ some row
    → first_of_test (is_key k) rows ≡ some row
unfolding first_of_test
candidate-first source k [] row v e = cc
candidate-first source k (r ∷ rows) row v e = elim (Bool-cases (is_candidate source k r)) [
  | inl t ↦ rw (candidate-key source k r t) (rw t at e)
  | inr t ↦
      let found = rw t at e in
      let (apart, fits) = All-first_of_test (Apart r) (is_candidate source k) rows v.0 found in
      rw (Apart-key k r row apart (candidate-key source k row fits))
        (candidate-first source k rows row v.1 found)
]

key-switched_off :
    (source fingerprint k : String) (r : SnapshotIndexRecord)
    → is_key k (switched_off source fingerprint r) ≡ is_key k r
key-switched_off source fingerprint k r = ground arith

key-switched_on : (j k : String) (r : SnapshotIndexRecord) → is_key k (switched_on j r) ≡ is_key k r
key-switched_on j k r = ground arith

-- The row of a key after one round of activation.
pub first-switch :
    (source fingerprint j k : String) (rows : List SnapshotIndexRecord) {row : SnapshotIndexRecord}
    → first_of_test (is_key k) rows ≡ some row
    → first_of_test (is_key k) (map (switched_on j) (map (switched_off source fingerprint) rows))
      ≡ some (switched_on j (switched_off source fingerprint row))
first-switch source fingerprint j k rows e =
    first_of_test-map (is_key k) (switched_on j) (key-switched_on j k)
      (map (switched_off source fingerprint) rows)
      (first_of_test-map (is_key k) (switched_off source fingerprint)
        (key-switched_off source fingerprint k) rows e)

pub candidate-active :
    (source k : String) (r : SnapshotIndexRecord)
    → is_candidate source k r ≡ true
    → is_active_of source
        (switched_on k (switched_off source r.request_fingerprint r)).request_fingerprint
        (switched_on k (switched_off source r.request_fingerprint r))
      ≡ true
candidate-active source k r h = ground (arith, eq_refl r.request_fingerprint)

activate_one-publishes :
    (source k : String) (rows : List SnapshotIndexRecord) {after : List SnapshotIndexRecord}
    → IsValid rows
    → activate_one source k rows ≡ ok after
    → IsPublished source k after
unfolding activate_one
activate_one-publishes source k rows v e =
    elim (Option-cases (first_of_test (is_candidate source k) rows)) [
      | inl n ↦ err-ne-ok (rw (n, activate_one) at e)
      | inr (row, h) ↦ subst (IsPublished source k) (ok_inj (rw (h, activate_one) at e)) (
        switched_on k (switched_off source row.request_fingerprint row),
        first-switch source row.request_fingerprint k k rows
            (candidate-first source k rows row v.apart h),
        candidate-active source k row
            (All-first_of_test (λ r. Unit {0}) (is_candidate source k) rows
              (All-intro (λ r. Unit {0}) (λ r. tt) rows) h).1,
      )
    ]

other-active :
    (source other fingerprint k : String) (r : SnapshotIndexRecord)
    → (source == other) ≡ false
    → is_active_of source r.request_fingerprint r ≡ true
    → is_active_of source
        (switched_on k (switched_off other fingerprint r)).request_fingerprint
        (switched_on k (switched_off other fingerprint r))
      ≡ true
other-active source other fingerprint k r n h =
    ground (
      arith,
      eq_iff r.source_unique_id source,
      eq_iff r.source_unique_id other,
      eq_iff source other,
    )

-- Activation for another source leaves what is published.
activate_one-keeps :
    (source k other j : String) (rows : List SnapshotIndexRecord) {after : List SnapshotIndexRecord}
    → (source == other) ≡ false
    → IsPublished source k rows
    → activate_one other j rows ≡ ok after
    → IsPublished source k after
unfolding activate_one
activate_one-keeps source k other j rows n (row, found, on) e =
    elim (Option-cases (first_of_test (is_candidate other j) rows)) [
      | inl m ↦ err-ne-ok (rw (m, activate_one) at e)
      | inr (new, h) ↦ subst (IsPublished source k) (ok_inj (rw (h, activate_one) at e)) (
        switched_on j (switched_off other new.request_fingerprint row),
        first-switch other new.request_fingerprint j k rows found,
        other-active source other new.request_fingerprint j row n on,
      )
    ]

abbrev pub DiffersFrom : (String × String) → (String × String) → Type 0
DiffersFrom p q = (p.0 == q.0) ≡ false

activate_all-keeps :
    (p : String × String) (snapshots : List (String × String)) (rows : List SnapshotIndexRecord)
    {after : List SnapshotIndexRecord}
    → All (DiffersFrom p) snapshots
    → IsPublished p.0 p.1 rows
    → activate_all snapshots rows ≡ ok after
    → IsPublished p.0 p.1 after
unfolding activate_all
activate_all-keeps p [] rows n h e = subst (IsPublished p.0 p.1) (ok_inj e) h
activate_all-keeps p ((source, k) ∷ rest) rows n h e =
    let (next, one, others) = >>=-eq-ok (activate_one source k rows) (activate_all rest) e in
    activate_all-keeps p rest next n.1 (activate_one-keeps p.0 p.1 source k rows n.0 h one) others

pub activate_all-publishes :
    (snapshots : List (String × String)) (rows : List SnapshotIndexRecord)
    {after : List SnapshotIndexRecord}
    → Pairwise DiffersFrom snapshots
    → IsValid rows
    → activate_all snapshots rows ≡ ok after
    → All (λ p. IsPublished p.0 p.1 after) snapshots
unfolding activate_all
activate_all-publishes [] rows d v e = tt
activate_all-publishes ((source, k) ∷ rest) rows d v e =
    let (next, one, others) = >>=-eq-ok (activate_one source k rows) (activate_all rest) e in
    (
      activate_all-keeps (source, k) rest next d.0 (activate_one-publishes source k rows v one)
          others,
      activate_all-publishes rest next d.1 (activate_one-IsValid source k rows v one) others,
    )
