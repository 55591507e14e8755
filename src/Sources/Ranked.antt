-- ===== src/Sources/Ranked.antt =====
-- `source_levels` raises only for cycles.
use dbtv.Common.{
  ℕ, zero, suc, ◌≤◌, ◌<◌, String, ◌≡◌, ◌≢◌, ap, subst, ◌==◌, eq_iff, Bool, true, false, not, List,
  [], ◌∷◌, map, none, some, length, keep, any_of, member, All, All-imp, All-imp₂, All-keep, arith,
  inl, inr, Bool-cases, Option-cases, List-cases,
}
use dbtv.Errors.{DbtvError, Result, ok, err, config_error, ◌>>=◌}
use dbtv.Sources.Planned.{
  PlannedSource, unique_id, SameSource, is_waiting, ready, waiting, levels, source_levels,
}
use dbtv.Sources.Layers.{AreLevels, source_levels_lem, round-length}

-- The parent of each source has a smaller rank, where it is one of the sources: no cycle.
abbrev pub RanksParent : (String → ℕ) → List String → PlannedSource → Type 0
RanksParent rank ids s = elim s.cohort_parent [
  | none ↦ Unit {0}
  | some p ↦ member p ids ≡ true → rank p < rank (unique_id s)
]

keep-empty {ℓ} :
    {A : Type ℓ} (f : A → Bool) (xs : List A) → keep f xs ≡ [] → All (λ x. f x ≡ false) xs
unfolding keep
keep-empty f [] h = tt
keep-empty f (x ∷ xs) h = elim (Bool-cases (f x)) [
  | inl t ↦ cc (rw t at h)
  | inr t ↦ (t, keep-empty f xs (rw t at h))
]

All-member {ℓ} :
    (Q : String → Type ℓ) (k : String) (xs : List PlannedSource)
    → All (λ s. Q (unique_id s)) xs
    → member k (map unique_id xs) ≡ true
    → Q k
unfolding member
All-member Q k [] h m = cc
All-member Q k (x ∷ xs) h m = elim (Bool-cases (unique_id x == k)) [
  | inl t ↦ subst Q ((eq_iff (unique_id x) k).0 t) h.0
  | inr t ↦ All-member Q k xs h.1 (rw t at m)
]

bind-ok-err {ℓ} :
    {A B : Type ℓ} (m : Result A) (g : A → B) {e : DbtvError}
    → (m >>= λ a. ok (g a)) ≡ err e
    → m ≡ err e
bind-ok-err (ok a) g h = cc
bind-ok-err (err e) g h = cc

module _ (rank : String → ℕ) where
  climb-one :
      (n : ℕ) (xs : List PlannedSource) (s : PlannedSource)
      → All (λ t. n ≤ rank (unique_id t)) xs
      → not (is_waiting (map unique_id xs) s) ≡ false
      → RanksParent rank (map unique_id xs) s
      → suc n ≤ rank (unique_id s)
  climb-one n xs s h w r = elim (Option-cases s.cohort_parent) [
    | inl e ↦ cc (rw e at w)
    | inr (p, e) ↦
        let m : member p (map unique_id xs) ≡ true = ground (arith, rw e at w) in
        let below : rank p < rank (unique_id s) = (rw e at r) m in
        omega (arith, below, All-member (λ k. n ≤ rank k) p xs h m)
  ]

  -- If every item waited, ranks would have no least value.
  climb :
      (n : ℕ) (xs : List PlannedSource)
      → All (λ s. not (is_waiting (map unique_id xs) s) ≡ false) xs
      → All (RanksParent rank (map unique_id xs)) xs
      → All (λ s. n ≤ rank (unique_id s)) xs
  climb zero xs w r = All-imp (RanksParent rank (map unique_id xs)) _ (λ s _. omega arith) xs r
  climb (suc n) xs w r =
      All-imp₂ (λ s. not (is_waiting (map unique_id xs) s) ≡ false)
        (RanksParent rank (map unique_id xs)) (λ s. suc n ≤ rank (unique_id s))
        (λ s ws rs. climb-one n xs s (climb n xs w r) ws rs) xs w r

  ready-ne-nil :
      (x : PlannedSource) (xs : List PlannedSource)
      → All (RanksParent rank (map unique_id (x ∷ xs))) (x ∷ xs)
      → ready (x ∷ xs) ≢ []
  ready-ne-nil x xs r e =
      let w = keep-empty (λ s. not (is_waiting (map unique_id (x ∷ xs)) s)) (x ∷ xs) e in
      let top = climb (suc (rank (unique_id x))) (x ∷ xs) w r in absurd (omega (arith, top.0))

  -- What waits is still ranked.
  RanksParent-fewer :
      (xs ys : List PlannedSource) (s : PlannedSource)
      → ((k : String) → member k (map unique_id ys) ≡ true → member k (map unique_id xs) ≡ true)
      → RanksParent rank (map unique_id xs) s
      → RanksParent rank (map unique_id ys) s
  RanksParent-fewer xs ys s f r = elim (Option-cases s.cohort_parent) [
    | inl e ↦ rw e tt
    | inr (p, e) ↦ rw e (λ m. (rw e at r) (f p m))
  ]

  member-keep :
      (f : PlannedSource → Bool) (k : String) (xs : List PlannedSource)
      → member k (map unique_id (keep f xs)) ≡ true
      → member k (map unique_id xs) ≡ true
  unfolding keep member
  member-keep f k [] h = h
  member-keep f k (x ∷ xs) h = ground (arith, member-keep f k xs)

  module _ (same : PlannedSource → PlannedSource → Bool) (law : SameSource same) where
    RanksParent-waiting :
        (xs : List PlannedSource)
        → All (RanksParent rank (map unique_id xs)) xs
        → All (RanksParent rank (map unique_id (waiting same xs))) (waiting same xs)
    RanksParent-waiting xs r =
        let test = λ (s : PlannedSource). not (any_of (same s) (ready xs)) in
        All-keep (RanksParent rank (map unique_id (waiting same xs))) test xs (
          All-imp (RanksParent rank (map unique_id xs)) _
            (λ s. RanksParent-fewer xs (waiting same xs) s (λ k. member-keep test k xs)) xs r)

    levels-ne-error :
        (fuel : ℕ) (xs : List PlannedSource)
        → length xs ≤ fuel
        → All (RanksParent rank (map unique_id xs)) xs
        → levels same fuel xs ≢ err config_error
    unfolding levels
    levels-ne-error fuel [] h r = λ e. cc
    levels-ne-error zero (x ∷ xs) h r = absurd (omega arith)
    levels-ne-error (suc fuel) (x ∷ xs) h r = elim (List-cases (ready (x ∷ xs))) [
      | inl e ↦ absurd (ready-ne-nil x xs r e)
      | inr (y, ys, e) ↦
          let shorter : length (waiting same (x ∷ xs)) ≤ fuel =
            omega (
              arith,
              round-length same law (x ∷ xs),
              ap (λ (l : List PlannedSource). length l) e,
            ) in
          let rest =
            levels-ne-error fuel (waiting same (x ∷ xs)) shorter (RanksParent-waiting (x ∷ xs) r) in
          λ q. rest (
            bind-ok-err (levels same fuel (waiting same (x ∷ xs))) (λ ls. (y ∷ ys) ∷ ls)
              (rw (e, levels) at q))
    ]

-- Where some ranking puts the parent of each source below it, so that there is no cycle, the call
-- returns, and it returns levels.
pub source_levels_ok :
    (same : PlannedSource → PlannedSource → Bool)
    → SameSource same
    → (rank : String → ℕ) (sources : List PlannedSource)
    → All (RanksParent rank (map unique_id sources)) sources
    → (ls : List (List PlannedSource)) × (source_levels same sources ≡ ok ls) × AreLevels sources ls
unfolding source_levels
source_levels_ok same law rank sources r = elim (source_levels_lem same law sources) [
  | inl e ↦ absurd (levels-ne-error rank same law (length sources) sources (omega arith) r e)
  | inr found ↦ found
]
