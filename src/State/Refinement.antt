-- ===== src/State/Refinement.antt =====
-- The index as a finite map: for a source and a request, the key of the active snapshot. Activation of a
-- snapshot is an update of this map.
use dbtv.Common.{
  String, ◌≡◌, refl, subst, sym, ap, ◌∙◌, Bool, true, false, ◌&&◌, ◌==◌, eq_iff, eq_refl, and-left,
  and-right, List, [], ◌∷◌, map, Option, none, some, if◌then◌else◌, keep, first_of_test, All,
  All-imp, All-intro, All-first_of_test, ◌⊎◌, inl, inr, Bool-cases, Option-cases, arith,
}
use dbtv.Errors.{ok, >>=-eq-ok, ok_inj, err-ne-ok}
use dbtv.State.Tables.{
  SnapshotIndexRecord, Db, is_active_of, get_snapshot, active_snapshot, latest_first,
}
use dbtv.State.Activation.{
  is_candidate, in_group, switched_off, switched_on, activate_one, activate_all, activate_many,
  activate,
}
use dbtv.State.Valid.{IsValid}
use dbtv.State.Exclusive.{Fits, All-Fits, activate_one-IsValid}
use dbtv.State.Active.{active_snapshot_lem}
use dbtv.State.Publication.{candidate-first, first-switch}

-- The abstract state, and its only update.
abbrev pub ActiveKeys : Type 0
ActiveKeys = String → String → Option String

abbrev pub put : String → String → String → ActiveKeys → ActiveKeys
put source fingerprint k m = λ o f. if o == source && f == fingerprint then some k else m o f

abbrev pub key_of : Option SnapshotIndexRecord → Option String
key_of none = none
key_of (some r) = some r.snapshot_key

-- What the index holds, seen as such a map.
unfoldable pub active_keys : Db → ActiveKeys
active_keys db = λ source fingerprint. key_of (active_snapshot source fingerprint db)

keep-map_unchanged {ℓ} :
    {A : Type ℓ} (test : A → Bool) (f : A → A) (xs : List A)
    → All (λ x. ((test (f x) ≡ false) × (test x ≡ false)) ⊎ (f x ≡ x)) xs
    → keep test (map f xs) ≡ keep test xs
unfolding keep
keep-map_unchanged test f [] h = refl
keep-map_unchanged test f (x ∷ xs) h = elim h.0 [
  | inl e ↦ rw (e.0, e.1) (keep-map_unchanged test f xs h.1)
  | inr e ↦ rw (e, keep-map_unchanged test f xs h.1) refl
]

abbrev switched : String → String → String → SnapshotIndexRecord → SnapshotIndexRecord
switched source fingerprint k r = switched_on k (switched_off source fingerprint r)

-- A row outside of the group stays as it is, and one inside is not active for another group.
switched-other :
    (source fingerprint k o f : String) (r : SnapshotIndexRecord)
    → (o == source && f == fingerprint) ≡ false
    → Fits source fingerprint k r
    → ((is_active_of o f (switched source fingerprint k r) ≡ false) × (is_active_of o f r ≡ false))
      ⊎ (switched source fingerprint k r ≡ r)
switched-other source fingerprint k o f r n h = elim (Bool-cases (in_group source fingerprint r)) [
  | inl g ↦ inl (
    ground (
      arith,
      g,
      n,
      eq_iff r.source_unique_id source,
      eq_iff r.request_fingerprint fingerprint,
      eq_iff r.source_unique_id o,
      eq_iff r.request_fingerprint f,
      eq_iff o source,
      eq_iff f fingerprint,
    ),
    ground (
      arith,
      g,
      n,
      eq_iff r.source_unique_id source,
      eq_iff r.request_fingerprint fingerprint,
      eq_iff r.source_unique_id o,
      eq_iff r.request_fingerprint f,
      eq_iff o source,
      eq_iff f fingerprint,
    ),
  )
  | inr g ↦ inr (ground (arith, g, h))
]

candidate-on :
    (source k : String) (r : SnapshotIndexRecord)
    → is_candidate source k r ≡ true
    → is_active_of source r.request_fingerprint (switched source r.request_fingerprint k r) ≡ true
candidate-on source k r h = ground (arith, eq_refl r.request_fingerprint)

switched-key :
    (source fingerprint k : String) (r : SnapshotIndexRecord)
    → is_candidate source k r ≡ true
    → (switched source fingerprint k r).snapshot_key ≡ k
switched-key source fingerprint k r h = ground (arith, eq_iff r.snapshot_key k)

-- One round of activation, on the rows.
module _ (source k : String) (db : Db) (row : SnapshotIndexRecord) (valid : IsValid db.snapshots)
    (found : first_of_test (is_candidate source k) db.snapshots ≡ some row) where
  abbrev rows : List SnapshotIndexRecord
  rows = map (switched_on k) (map (switched_off source row.request_fingerprint) db.snapshots)

  abbrev after : Db
  after = record db { snapshots = rows }

  candidate : is_candidate source k row ≡ true
  candidate =
      (All-first_of_test (λ r. Unit {0}) (is_candidate source k) db.snapshots
        (All-intro (λ r. Unit {0}) (λ r. tt) db.snapshots) found).1

  activated : activate_one source k db.snapshots ≡ ok rows
  unfolding activate_one
  activated = rw (found, activate_one) refl

  in_group-active :
      active_snapshot source row.request_fingerprint after
      ≡ some (switched source row.request_fingerprint k row)
  unfolding get_snapshot
  in_group-active =
      active_snapshot_lem source row.request_fingerprint k after
        (switched source row.request_fingerprint k row)
        (activate_one-IsValid source k db.snapshots valid activated)
        (first-switch source row.request_fingerprint k k db.snapshots
          (candidate-first source k db.snapshots row valid.apart found))
        (candidate-on source k row candidate)

  map-map :
      (xs : List SnapshotIndexRecord)
      → map (switched_on k) (map (switched_off source row.request_fingerprint) xs)
        ≡ map (switched source row.request_fingerprint k) xs
  map-map [] = refl
  map-map (x ∷ xs) = ap (λ ys. switched source row.request_fingerprint k x ∷ ys) (map-map xs)

  other-active :
      (o f : String)
      → (o == source && f == row.request_fingerprint) ≡ false
      → active_snapshot o f after ≡ active_snapshot o f db
  unfolding active_snapshot
  other-active o f n =
      ap (λ xs. first_of_test (λ r. true) (latest_first [] xs))
        (ap (keep (is_active_of o f)) (map-map db.snapshots)
          ∙ keep-map_unchanged (is_active_of o f) (switched source row.request_fingerprint k)
              db.snapshots
              (All-imp (Fits source row.request_fingerprint k) _
                (λ r. switched-other source row.request_fingerprint k o f r n) db.snapshots
                (All-Fits source k db.snapshots row valid.apart found)))

  pointwise :
      (o f : String)
      → active_keys after o f ≡ put source row.request_fingerprint k (active_keys db) o f
  unfolding active_keys
  pointwise o f = elim (Bool-cases (o == source && f == row.request_fingerprint)) [
    | inl e ↦ rw e (
        subst (λ x. active_keys after x f ≡ some k) (sym ((eq_iff o source).0 (and-left _ _ e)))
          (subst (λ y. active_keys after source y ≡ some k)
            (sym ((eq_iff f row.request_fingerprint).0 (and-right _ _ e)))
            (ap key_of in_group-active
              ∙ ap some (switched-key source row.request_fingerprint k row candidate))))
    | inr e ↦ rw (e, other-active o f e) refl
  ]

-- Activation that returns is an update of the map from a source and a request to the key of the active
-- snapshot, in a valid index: the source and request of the activated snapshot now have its key, and all
-- others have what they had.
pub activate-refines :
    (source k : String) (db db' : Db)
    → IsValid db.snapshots
    → activate source k db ≡ ok db'
    → (row : SnapshotIndexRecord) × (get_snapshot k db ≡ some row)
      × (active_keys db' ≡ put source row.request_fingerprint k (active_keys db))
unfolding activate activate_many activate_all get_snapshot activate_one
activate-refines source k db db' v e =
    let (next, all, last) =
      >>=-eq-ok (activate_all ((source, k) ∷ []) db.snapshots)
        (λ rs. ok (record db { snapshots = rs })) e in
    let (one, first, rest) = >>=-eq-ok (activate_one source k db.snapshots) (activate_all []) all in
    elim (Option-cases (first_of_test (is_candidate source k) db.snapshots)) [
      | inl n ↦ err-ne-ok (rw (n, activate_one) at first)
      | inr (row, h) ↦ (
        row,
        candidate-first source k db.snapshots row v.apart h,
        subst (λ d. active_keys d ≡ put source row.request_fingerprint k (active_keys db))
            (ap (λ rs. record db { snapshots = rs })
                (ok_inj (rw (h, activate_one) at first) ∙ ok_inj rest)
              ∙ ok_inj last)
            (λ i o f. pointwise source k db row v h o f i),
      )
    ]
