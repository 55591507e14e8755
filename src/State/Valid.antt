-- ===== src/State/Valid.antt =====
-- The invariant of the table of snapshots: the key is unique, at most one row of a source and a
-- request is active, and an active row is committed.
use dbtv.Common.{
  String, ◌≡◌, Bool, false, not, ◌&&◌, ◌==◌, List, [], ◌∷◌, map, keep, All, All-intro, All-imp,
  All-keep, All-map, Pairwise, Pairwise-keep, Pairwise-map, arith, inl, inr, Bool-cases,
}
use dbtv.State.Tables.{
  SnapshotIndexRecord, committed, corrupt, row_state_eq, is_key, upsert, updated, corrupted,
  with_pin,
}

abbrev pub same_group : SnapshotIndexRecord → SnapshotIndexRecord → Bool
same_group r s =
    r.source_unique_id == s.source_unique_id && r.request_fingerprint == s.request_fingerprint

abbrev pub both_active : SnapshotIndexRecord → SnapshotIndexRecord → Bool
both_active r s = r.active && s.active && same_group r s

pub record Apart (r s : SnapshotIndexRecord) : Type 0 where
  pub keys : (r.snapshot_key == s.snapshot_key) ≡ false
  pub active : both_active r s ≡ false

abbrev pub IsSound : SnapshotIndexRecord → Type 0
IsSound r = (r.active && row_state_eq r.state corrupt) ≡ false

pub record IsValid (rows : List SnapshotIndexRecord) : Type 0 where
  pub apart : Pairwise Apart rows
  pub sound : All IsSound rows

-- A change of single rows that keeps the key and the group and switches nothing on.
pub record Lowers (f : SnapshotIndexRecord → SnapshotIndexRecord) : Type 0 where
  pub key : (r : SnapshotIndexRecord) → (f r).snapshot_key ≡ r.snapshot_key
  pub origin : (r : SnapshotIndexRecord) → (f r).source_unique_id ≡ r.source_unique_id
  pub request : (r : SnapshotIndexRecord) → (f r).request_fingerprint ≡ r.request_fingerprint
  pub active : (r : SnapshotIndexRecord) → ((f r).active && not r.active) ≡ false
  pub sound : (r : SnapshotIndexRecord) → IsSound r → IsSound (f r)

Lowers-Apart :
    (f : SnapshotIndexRecord → SnapshotIndexRecord)
    → Lowers f
    → (r s : SnapshotIndexRecord) → Apart r s
    → Apart (f r) (f s)
Lowers-Apart f l r s a = record {
  keys = ground (arith, l.key r, l.key s, a.keys);
  active =
      ground
        (arith, l.origin r, l.origin s, l.request r, l.request s, l.active r, l.active s, a.active);
}

pub Lowers-IsValid :
    (f : SnapshotIndexRecord → SnapshotIndexRecord)
    → Lowers f
    → (rows : List SnapshotIndexRecord) → IsValid rows
    → IsValid (map f rows)
Lowers-IsValid f l rows v = record {
  apart =
      Pairwise-map Apart (λ r. Unit {0}) f (λ r s _ _. Lowers-Apart f l r s) rows
        (All-intro (λ r. Unit {0}) (λ r. tt) rows) v.apart;
  sound = All-map IsSound f rows (All-imp IsSound (λ r. IsSound (f r)) l.sound rows v.sound);
}

pub corrupted-Lowers : (k : String) → Lowers (corrupted k)
corrupted-Lowers k = record {
  key = λ r. ground arith;
  origin = λ r. ground arith;
  request = λ r. ground arith;
  active = λ r. ground arith;
  sound = λ r h. ground arith;
}

pub with_pin-Lowers : (k : String) (pinned : Bool) → Lowers (with_pin k pinned)
with_pin-Lowers k pinned = record {
  key = λ r. ground arith;
  origin = λ r. ground arith;
  request = λ r. ground arith;
  active = λ r. ground arith;
  sound = λ r h. ground arith;
}

pub keep-IsValid :
    (test : SnapshotIndexRecord → Bool) (rows : List SnapshotIndexRecord)
    → IsValid rows
    → IsValid (keep test rows)
keep-IsValid test rows v = record {
  apart = Pairwise-keep Apart test rows v.apart;
  sound = All-keep IsSound test rows v.sound;
}

-- The upsert of a row that is not active.
module _ (new : SnapshotIndexRecord) (off : new.active ≡ false)
    (state : new.state ≡ committed) where
  upsert-All :
      (r : SnapshotIndexRecord) (rows : List SnapshotIndexRecord)
      → is_key new.snapshot_key r ≡ false
      → All (Apart r) rows
      → All (Apart r) (upsert new rows)
  unfolding upsert
  upsert-All r [] other h = (record { keys = other; active = ground arith }, tt)
  upsert-All r (s ∷ rows) other h = elim (Bool-cases (is_key new.snapshot_key s)) [
    | inl e ↦ rw e (record { keys = h.0.keys; active = h.0.active }, h.1)
    | inr e ↦ rw e (h.0, upsert-All r rows other h.1)
  ]

  pub upsert-IsValid : (rows : List SnapshotIndexRecord) → IsValid rows → IsValid (upsert new rows)
  unfolding upsert
  upsert-IsValid [] v = record { apart = (tt, tt); sound = (ground arith, tt) }
  upsert-IsValid (r ∷ rows) v = elim (Bool-cases (is_key new.snapshot_key r)) [
    | inl e ↦ rw e (record {
      apart = (
        All-imp (Apart r) (Apart (updated new r))
            (λ s a. record { keys = a.keys; active = a.active }) rows v.apart.0,
        v.apart.1,
      );
      sound = (ground arith, v.sound.1);
    })
    | inr e ↦
        let rest = upsert-IsValid rows (record { apart = v.apart.1; sound = v.sound.1 }) in
        rw e (record {
          apart = (upsert-All r rows e v.apart.0, rest.apart);
          sound = (v.sound.0, rest.sound);
        })
  ]
