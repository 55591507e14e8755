-- ===== src/Budget/Disjoint.antt =====
-- The roots that are measured: none lies in another, so nothing counts twice, and each path is covered.
use dbtv.Common.{
  ◌≤◌, ◌≡◌, refl, sym, subst, true, false, ◌==◌, eq_iff, eq_refl, List, [], ◌∷◌, ◌++◌, leb, leb→le,
  any_of, length, All, All-imp, All-append, Pairwise, arith, Bool-cases, inl, inr, and-left,
  and-right, Bool-absurd,
}
use dbtv.Budget.Roots.{PathOf, is_relative_to, place_path, by_length, add_roots, distinct_roots}

relative-length : (p q : PathOf) → is_relative_to p q ≡ true → length q ≤ length p
unfolding is_relative_to
relative-length p [] h = omega arith
relative-length [] (y ∷ q) h = cc
relative-length (x ∷ p) (y ∷ q) h = omega (arith, relative-length p q (and-right (x == y) _ h))

-- A path in another of the same length or more has it in itself.
relative_sym :
    (p q : PathOf) → length p ≤ length q → is_relative_to p q ≡ true → is_relative_to q p ≡ true
unfolding is_relative_to
relative_sym [] q l h = refl
relative_sym (x ∷ p) [] l h = absurd (omega (arith, l))
relative_sym (x ∷ p) (y ∷ q) l h =
    let same = (eq_iff x y).0 (and-left (x == y) _ h) in
    rw ((eq_iff y x).1 (sym same)) (relative_sym p q (omega (arith, l)) (and-right (x == y) _ h))

-- Neither path lies in the other.
pub record AreApart (p q : PathOf) : Type 0 where
  pub later : is_relative_to q p ≡ false
  pub earlier : is_relative_to p q ≡ false

abbrev IsLonger : PathOf → PathOf → Type 0
IsLonger p q = length p ≤ length q

All-place :
    (x p : PathOf) (ps : List PathOf)
    → length x ≤ length p
    → All (IsLonger x) ps
    → All (IsLonger x) (place_path p ps)
unfolding place_path
All-place x p [] h a = (h, tt)
All-place x p (q ∷ qs) h a = elim (Bool-cases (leb (length p) (length q))) [
  | inl t ↦ rw t (h, a)
  | inr t ↦ rw t (a.0, All-place x p qs h a.1)
]

Pairwise-place :
    (p : PathOf) (ps : List PathOf) → Pairwise IsLonger ps → Pairwise IsLonger (place_path p ps)
unfolding place_path
Pairwise-place p [] h = (tt, tt)
Pairwise-place p (q ∷ qs) h = elim (Bool-cases (leb (length p) (length q))) [
  | inl t ↦
      let l = leb→le (length p) (length q) t in
      rw t ((l, All-imp (IsLonger q) (IsLonger p) (λ r s. omega (arith, l, s)) qs h.0), h)
  | inr t ↦ rw t (All-place q p qs (ground arith) h.0, Pairwise-place p qs h.1)
]

by_length-Pairwise : (ps : List PathOf) → Pairwise IsLonger (by_length ps)
unfolding by_length
by_length-Pairwise [] = tt
by_length-Pairwise (p ∷ ps) = Pairwise-place p (by_length ps) (by_length-Pairwise ps)

not_inside : (p r : PathOf) → IsLonger r p → is_relative_to p r ≡ false → is_relative_to r p ≡ false
not_inside p r l t = elim (Bool-cases (is_relative_to r p)) [
  | inl u ↦ Bool-absurd (is_relative_to p r) (relative_sym r p l u) t
  | inr u ↦ u
]

apart_from :
    (p : PathOf) (rs : List PathOf)
    → any_of (is_relative_to p) rs ≡ false
    → All (λ r. IsLonger r p) rs
    → All (λ r. AreApart r p) rs
apart_from p [] h l = tt
apart_from p (r ∷ rs) h l = elim (Bool-cases (is_relative_to p r)) [
  | inl t ↦ cc (rw t at h)
  | inr t ↦ (record { later = t; earlier = not_inside p r l.0 t }, apart_from p rs (rw t at h) l.1)
]

Pairwise-snoc :
    (rs : List PathOf) (p : PathOf)
    → Pairwise AreApart rs
    → All (λ r. AreApart r p) rs
    → Pairwise AreApart (rs ++ p ∷ [])
Pairwise-snoc [] p h a = (tt, tt)
Pairwise-snoc (r ∷ rs) p h a =
    (All-append (AreApart r) rs (p ∷ []) h.0 (a.0, tt), Pairwise-snoc rs p h.1 a.1)

-- No root of the result is longer than a path to come.
abbrev AreShort : List PathOf → List PathOf → Type 0
AreShort result ps = All (λ r. All (IsLonger r) ps) result

add_roots-apart :
    (result ps : List PathOf)
    → Pairwise AreApart result
    → AreShort result ps
    → Pairwise IsLonger ps
    → Pairwise AreApart (add_roots result ps)
unfolding add_roots
add_roots-apart result [] h l s = h
add_roots-apart result (p ∷ ps) h l s =
    let tails =
      All-imp (λ r. All (IsLonger r) (p ∷ ps)) (λ r. All (IsLonger r) ps) (λ r a. a.1) result l in
    let heads =
      All-imp (λ r. All (IsLonger r) (p ∷ ps)) (λ r. IsLonger r p) (λ r a. a.0) result l in
    elim (Bool-cases (any_of (is_relative_to p) result)) [
      | inl t ↦ rw t (add_roots-apart result ps h tails s.1)
      | inr t ↦ rw t (
          add_roots-apart (result ++ p ∷ []) ps
            (Pairwise-snoc result p h (apart_from p result t heads))
            (All-append (λ r. All (IsLonger r) ps) result (p ∷ []) tails (s.0, tt)) s.1)
    ]

IsCovered : List PathOf → PathOf → Type 0
IsCovered roots p = any_of (is_relative_to p) roots ≡ true

as-IsCovered :
    (p : PathOf) (rs : List PathOf) → any_of (is_relative_to p) rs ≡ true → IsCovered rs p
unfolding IsCovered
as-IsCovered p rs h = h

IsCovered-append : (p : PathOf) (rs qs : List PathOf) → IsCovered rs p → IsCovered (rs ++ qs) p
unfolding IsCovered
IsCovered-append p [] qs h = cc
IsCovered-append p (r ∷ rs) qs h = elim (Bool-cases (is_relative_to p r)) [
  | inl t ↦ rw t refl
  | inr t ↦ rw t (IsCovered-append p rs qs (rw t at h))
]

relative_self : (p : PathOf) → is_relative_to p p ≡ true
unfolding is_relative_to
relative_self [] = refl
relative_self (x ∷ p) = rw (eq_refl x) (relative_self p)

IsCovered-last : (p : PathOf) (rs : List PathOf) → IsCovered (rs ++ p ∷ []) p
unfolding IsCovered
IsCovered-last p [] = rw (relative_self p) refl
IsCovered-last p (r ∷ rs) = elim (Bool-cases (is_relative_to p r)) [
  | inl t ↦ rw t refl
  | inr t ↦ rw t (IsCovered-last p rs)
]

IsCovered-add_roots :
    (p : PathOf) (result ps : List PathOf) → IsCovered result p → IsCovered (add_roots result ps) p
unfolding add_roots
IsCovered-add_roots p result [] h = h
IsCovered-add_roots p result (q ∷ qs) h = elim (Bool-cases (any_of (is_relative_to q) result)) [
  | inl t ↦ rw t (IsCovered-add_roots p result qs h)
  | inr t ↦
      rw t (IsCovered-add_roots p (result ++ q ∷ []) qs (IsCovered-append p result (q ∷ []) h))
]

add_roots-covers :
    (result ps roots : List PathOf) → add_roots result ps ≡ roots → All (IsCovered roots) ps
unfolding add_roots
add_roots-covers result [] roots e = tt
add_roots-covers result (p ∷ ps) roots e = elim (Bool-cases (any_of (is_relative_to p) result)) [
  | inl t ↦
      let e' : add_roots result ps ≡ roots = rw t at e in
      (
        subst (λ r. IsCovered r p) e' (IsCovered-add_roots p result ps (as-IsCovered p result t)),
        add_roots-covers result ps roots e',
      )
  | inr t ↦
      let e' : add_roots (result ++ p ∷ []) ps ≡ roots = rw t at e in
      (
        subst (λ r. IsCovered r p) e'
            (IsCovered-add_roots p (result ++ p ∷ []) ps (IsCovered-last p result)),
        add_roots-covers (result ++ p ∷ []) ps roots e',
      )
]

All-unplace :
    (P : PathOf → Type 0) (p : PathOf) (ps : List PathOf) → All P (place_path p ps) → P p × All P ps
unfolding place_path
All-unplace P p [] h = h
All-unplace P p (q ∷ qs) h = elim (Bool-cases (leb (length p) (length q))) [
  | inl t ↦ rw t at h
  | inr t ↦
      let rest = rw t at h in
      let (here, there) = All-unplace P p qs rest.1 in (here, (rest.0, there))
]

All-by_length : (P : PathOf → Type 0) (ps : List PathOf) → All P (by_length ps) → All P ps
unfolding by_length
All-by_length P [] h = tt
All-by_length P (p ∷ ps) h =
    let (here, there) = All-unplace P p (by_length ps) h in (here, All-by_length P ps there)

-- Of the roots that are measured none lies in another, so that no file counts twice, and each of the
-- given directories lies in one of them.
pub distinct_roots_lem :
    (paths : List PathOf)
    → Pairwise AreApart (distinct_roots paths)
      × All (λ p. any_of (is_relative_to p) (distinct_roots paths) ≡ true) paths
unfolding distinct_roots IsCovered
distinct_roots_lem paths = (
  add_roots-apart [] (by_length paths) tt tt (by_length-Pairwise paths),
  All-by_length (IsCovered (distinct_roots paths)) paths
      (add_roots-covers [] (by_length paths) (distinct_roots paths) refl),
)
