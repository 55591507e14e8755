-- ===== src/Sources/Layers.antt =====
-- What `source_levels` returns.
use mathlib.Core.List.Perm
use mathlib.Core.List.{Perm, perm_middle, flatten}
use dbtv.Common.{
  ℕ, zero, suc, ◌+◌, ◌≤◌, String, ◌≡◌, refl, sym, ap, subst, Bool, true, false, not, ◌||◌, List, [],
  ◌∷◌, ◌++◌, map, length, keep, any_of, member, All, All-imp, arith, inl, inr, Option-cases,
  List-cases, ◌⊎◌, Bool-cases, Bool-absurd,
}
use dbtv.Errors.{ok, err, config_error}
use dbtv.Sources.Planned.{
  PlannedSource, unique_id, SameSource, is_waiting, ready, waiting, levels, source_levels,
}

keep-cong {ℓ} :
    {A : Type ℓ} (f g : A → Bool) (xs : List A) → All (λ x. f x ≡ g x) xs → keep f xs ≡ keep g xs
unfolding keep
keep-cong f g [] h = refl
keep-cong f g (x ∷ xs) h = ground (arith, h.0, keep-cong f g xs h.1)

partition-perm {ℓ} :
    {A : Type ℓ} (f : A → Bool) (xs : List A) → Perm (keep f xs ++ keep (λ x. not (f x)) xs) xs
unfolding keep
partition-perm f [] = Perm.refl []
partition-perm f (x ∷ xs) = elim (Bool-cases (f x)) [
  | inl t ↦ rw t (Perm.cons x (partition-perm f xs))
  | inr t ↦ rw t (
      Perm.trans (perm_middle (keep f xs) (keep (λ y. not (f y)) xs))
        (Perm.cons x (partition-perm f xs)))
]

module _ (same : PlannedSource → PlannedSource → Bool) (law : SameSource same) where
  in-keep :
      (f : PlannedSource → Bool) (s : PlannedSource) (xs : List PlannedSource)
      → any_of (same s) (keep f xs) ≡ true
      → f s ≡ true
  unfolding keep
  in-keep f s [] h = cc
  in-keep f s (x ∷ xs) h = elim (Bool-cases (f x)) [
    | inl t ↦ elim (Bool-cases (same s x)) [
      | inl u ↦ subst (λ y. f y ≡ true) (sym ((law.iff s x).0 u)) t
      | inr u ↦ in-keep f s xs (rw (t, u) at h)
    ]
    | inr t ↦ in-keep f s xs (rw t at h)
  ]

  keep-in :
      (f : PlannedSource → Bool) (s : PlannedSource) (xs : List PlannedSource)
      → any_of (same s) xs ≡ true
      → f s ≡ true
      → any_of (same s) (keep f xs) ≡ true
  unfolding keep
  keep-in f s [] h p = cc
  keep-in f s (x ∷ xs) h p = elim (Bool-cases (same s x)) [
    | inl u ↦ rw (subst (λ y. f y ≡ true) ((law.iff s x).0 u) p, u)
    | inr u ↦ elim (Bool-cases (f x)) [
      | inl v ↦ rw (v, u) (keep-in f s xs (rw u at h) p)
      | inr v ↦ rw v (keep-in f s xs (rw u at h) p)
    ]
  ]

  self-in : (xs : List PlannedSource) → All (λ s. any_of (same s) xs ≡ true) xs
  self-in [] = tt
  self-in (x ∷ xs) = (
    rw ((law.iff x x).1 refl),
    All-imp (λ s. any_of (same s) xs ≡ true) (λ s. any_of (same s) (x ∷ xs) ≡ true)
        (λ s h. ground (arith, h)) xs (self-in xs),
  )

  in-keep-eq :
      (f : PlannedSource → Bool) (xs : List PlannedSource) (s : PlannedSource)
      → any_of (same s) xs ≡ true
      → not (any_of (same s) (keep f xs)) ≡ not (f s)
  in-keep-eq f xs s h = elim (Bool-cases (f s)) [
    | inl t ↦ rw (t, keep-in f s xs h t)
    | inr t ↦ elim (Bool-cases (any_of (same s) (keep f xs))) [
      | inl u ↦ Bool-absurd (f s) (in-keep f s xs u) t
      | inr u ↦ rw (t, u)
    ]
  ]

  -- The items that are not in `ready` are those that are not ready.
  waiting_lem :
      (xs : List PlannedSource)
      → waiting same xs ≡ keep (λ s. not (not (is_waiting (map unique_id xs) s))) xs
  waiting_lem xs =
      keep-cong (λ s. not (any_of (same s) (ready xs)))
        (λ s. not (not (is_waiting (map unique_id xs) s))) xs
        (All-imp (λ s. any_of (same s) xs ≡ true) _
          (in-keep-eq (λ s. not (is_waiting (map unique_id xs) s)) xs) xs (self-in xs))

  round-perm : (xs : List PlannedSource) → Perm (ready xs ++ waiting same xs) xs
  round-perm xs =
      rw (waiting_lem xs) (partition-perm (λ s. not (is_waiting (map unique_id xs) s)) xs)

length-partition {ℓ} :
    {A : Type ℓ} (f : A → Bool) (xs : List A)
    → length (keep f xs) + length (keep (λ x. not (f x)) xs) ≡ length xs
unfolding keep
length-partition f [] = refl
length-partition f (x ∷ xs) = ground (arith, length-partition f xs)

member-partition :
    (f : PlannedSource → Bool) (k : String) (xs : List PlannedSource)
    → (member k (map unique_id (keep f xs)) || member k (map unique_id (keep (λ x. not (f x)) xs)))
      ≡ member k (map unique_id xs)
unfolding keep member
member-partition f k [] = refl
member-partition f k (x ∷ xs) = ground (arith, member-partition f k xs)

member-map-append :
    (k : String) (xs ys : List PlannedSource)
    → member k (map unique_id (xs ++ ys))
      ≡ (member k (map unique_id xs) || member k (map unique_id ys))
unfolding member
member-map-append k [] ys = refl
member-map-append k (x ∷ xs) ys = ground (arith, member-map-append k xs ys)

keep-All {ℓ} : {A : Type ℓ} (f : A → Bool) (xs : List A) → All (λ x. f x ≡ true) (keep f xs)
unfolding keep
keep-All f [] = tt
keep-All f (x ∷ xs) = elim (Bool-cases (f x)) [
  | inl t ↦ rw t (t, keep-All f xs)
  | inr t ↦ rw t (keep-All f xs)
]

-- The parent of each item stands in an earlier level, if it is one of the sources at all.
abbrev pub Layered : List (List PlannedSource) → Type 0
Layered [] = Unit
Layered (l ∷ ls) = All (λ s. is_waiting (map unique_id (l ++ flatten ls)) s ≡ false) l × Layered ls

-- Levels of the given sources.
pub record AreLevels (xs : List PlannedSource) (ls : List (List PlannedSource)) : Type 0 where
  pub perm : Perm (flatten ls) xs
  pub layered : Layered ls
  pub ids : (k : String) → member k (map unique_id (flatten ls)) ≡ member k (map unique_id xs)

not-waiting :
    (xs ys : List PlannedSource) (s : PlannedSource)
    → ((k : String) → member k (map unique_id ys) ≡ member k (map unique_id xs))
    → not (is_waiting (map unique_id xs) s) ≡ true
    → is_waiting (map unique_id ys) s ≡ false
not-waiting xs ys s e h = elim (Option-cases s.cohort_parent) [
  | inl n ↦ rw n
  | inr (p, q) ↦ rw q (ground (arith, e p, rw q at h))
]

module _ (same : PlannedSource → PlannedSource → Bool) (law : SameSource same) where
  round-ids :
      (xs : List PlannedSource) (k : String)
      → (member k (map unique_id (ready xs)) || member k (map unique_id (waiting same xs)))
        ≡ member k (map unique_id xs)
  round-ids xs k =
      rw (waiting_lem same law xs)
        (member-partition (λ s. not (is_waiting (map unique_id xs) s)) k xs)

  pub round-length :
      (xs : List PlannedSource) → length (ready xs) + length (waiting same xs) ≡ length xs
  round-length xs =
      rw (waiting_lem same law xs)
        (length-partition (λ s. not (is_waiting (map unique_id xs) s)) xs)

  -- One level before the levels of what waits.
  AreLevels-cons :
      (xs : List PlannedSource) (ls : List (List PlannedSource))
      → AreLevels (waiting same xs) ls
      → AreLevels xs (ready xs ∷ ls)
  unfolding flatten
  AreLevels-cons xs ls h =
      let ids : (k : String)
          → member k (map unique_id (ready xs ++ flatten ls)) ≡ member k (map unique_id xs) =
        λ k. ground (arith, member-map-append k (ready xs) (flatten ls), h.ids k, round-ids xs k) in
      record {
        perm = Perm.trans (Perm.append_left (ready xs) h.perm) (round-perm same law xs);
        layered = (
          All-imp (λ s. not (is_waiting (map unique_id xs) s) ≡ true) _
              (λ s. not-waiting xs (ready xs ++ flatten ls) s ids) (ready xs)
              (keep-All (λ s. not (is_waiting (map unique_id xs) s)) xs),
          h.layered,
        );
        ids = ids;
      }

  pub levels_lem :
      (fuel : ℕ) (xs : List PlannedSource)
      → length xs ≤ fuel
      → (levels same fuel xs ≡ err config_error)
        ⊎ ((ls : List (List PlannedSource)) × (levels same fuel xs ≡ ok ls) × AreLevels xs ls)
  unfolding levels flatten
  levels_lem fuel [] h =
      inr ([], refl, record { perm = Perm.refl []; layered = tt; ids = λ k. refl })
  levels_lem zero (x ∷ xs) h = absurd (omega arith)
  levels_lem (suc fuel) (x ∷ xs) h = elim (List-cases (ready (x ∷ xs))) [
    | inl e ↦ inl (rw (e, levels))
    | inr (r, rs, e) ↦
        let shorter : length (waiting same (x ∷ xs)) ≤ fuel =
          omega (arith, round-length (x ∷ xs), ap (λ (l : List PlannedSource). length l) e) in
        elim (levels_lem fuel (waiting same (x ∷ xs)) shorter) [
          | inl f ↦ inl (rw (e, f, levels))
          | inr (ls, f, a) ↦ inr (
            (r ∷ rs) ∷ ls,
            rw (e, f, levels),
            subst (λ l. AreLevels (x ∷ xs) (l ∷ ls)) e (AreLevels-cons (x ∷ xs) ls a),
          )
        ]
  ]

  -- Either the call raises ConfigError, or it returns levels that hold every source once and in
  -- which the parent of each item, where it is one of the sources, stands in an earlier level.
  pub source_levels_lem :
      (sources : List PlannedSource)
      → (source_levels same sources ≡ err config_error)
        ⊎ ((ls : List (List PlannedSource)) × (source_levels same sources ≡ ok ls)
            × AreLevels sources ls)
  unfolding source_levels
  source_levels_lem sources = levels_lem (length sources) sources (omega arith)
