-- ===== src/Common/Pairs.antt =====
-- Predicates on every element and on every pair of elements of a list.
use mathlib.Core.Bool.{Bool, true, false}
use mathlib.Core.List.{List, [], ◌∷◌, ◌++◌, map}
use mathlib.Core.Path.{◌≡◌, refl, ap, subst}
use mathlib.Core.Logic.{inl, inr}
use mathlib.Core.Option.{some, none}
use dbtv.Common.Tests.{if◌then◌else◌, Bool-cases, some_inj}
use dbtv.Common.Lists.{keep, any_of, first_of_test}

abbrev pub All {ℓ κ} : {A : Type ℓ} → (A → Type κ) → List A → Type κ
All P [] = Unit
All P (x ∷ xs) = P x × All P xs

-- The relation holds from each element to every later one.
abbrev pub Pairwise {ℓ κ} : {A : Type ℓ} → (A → A → Type κ) → List A → Type κ
Pairwise R [] = Unit
Pairwise R (x ∷ xs) = All (R x) xs × Pairwise R xs

pub All-imp {ℓ κ μ} :
    {A : Type ℓ} (P : A → Type κ) (Q : A → Type μ)
    → ((x : A) → P x → Q x)
    → (xs : List A) → All P xs
    → All Q xs
All-imp P Q f [] h = tt
All-imp P Q f (x ∷ xs) h = (f x h.0, All-imp P Q f xs h.1)

pub All-imp₂ {ℓ κ μ ν} :
    {A : Type ℓ} (P : A → Type κ) (Q : A → Type μ) (S : A → Type ν)
    → ((x : A) → P x → Q x → S x)
    → (xs : List A) → All P xs
    → All Q xs
    → All S xs
All-imp₂ P Q S f [] h k = tt
All-imp₂ P Q S f (x ∷ xs) h k = (f x h.0 k.0, All-imp₂ P Q S f xs h.1 k.1)

module _ {ℓ κ} {A : Type ℓ} (P : A → Type κ) where
  pub All-intro : ((x : A) → P x) → (xs : List A) → All P xs
  All-intro f [] = tt
  All-intro f (x ∷ xs) = (f x, All-intro f xs)

  All-keep_head :
      (test : A → Bool) (x : A) (xs : List A) (b : Bool)
      → P x
      → All P (keep test xs)
      → All P (if b then x ∷ keep test xs else keep test xs)
  All-keep_head test x xs true h k = (h, k)
  All-keep_head test x xs false h k = k

  pub All-keep : (test : A → Bool) (xs : List A) → All P xs → All P (keep test xs)
  unfolding keep
  All-keep test [] h = tt
  All-keep test (x ∷ xs) h = All-keep_head test x xs (test x) h.0 (All-keep test xs h.1)

  pub All-append : (xs ys : List A) → All P xs → All P ys → All P (xs ++ ys)
  All-append [] ys hx hy = hy
  All-append (x ∷ xs) ys hx hy = (hx.0, All-append xs ys hx.1 hy)

module _ {ℓ κ μ} {A : Type ℓ} {B : Type μ} (P : B → Type κ) (f : A → B) where
  pub All-map : (xs : List A) → All (λ x. P (f x)) xs → All P (map f xs)
  All-map [] h = tt
  All-map (x ∷ xs) h = (h.0, All-map xs h.1)

module _ {ℓ κ} {A : Type ℓ} (R : A → A → Type κ) where
  pub Pairwise-keep : (test : A → Bool) (xs : List A) → Pairwise R xs → Pairwise R (keep test xs)
  unfolding keep
  Pairwise-keep test [] h = tt
  Pairwise-keep test (x ∷ xs) h =
      choose (test x) (All-keep (R x) test xs h.0) (Pairwise-keep test xs h.1)
    where
      choose :
          (b : Bool)
          → All (R x) (keep test xs)
          → Pairwise R (keep test xs)
          → Pairwise R (if b then x ∷ keep test xs else keep test xs)
      choose true a p = (a, p)
      choose false a p = p

module _ {ℓ κ μ} {A : Type ℓ} (R : A → A → Type κ) where
  All-map_rel :
      (P : A → Type μ) (f : A → A)
      → ((x y : A) → P x → P y → R x y → R (f x) (f y))
      → (x : A) → P x
      → (ys : List A) → All P ys
      → All (R x) ys
      → All (R (f x)) (map f ys)
  All-map_rel P f step x px [] p r = tt
  All-map_rel P f step x px (y ∷ ys) p r =
      (step x y px p.0 r.0, All-map_rel P f step x px ys p.1 r.1)

  -- A change of the elements keeps a relation if it does so for two elements with the property.
  pub Pairwise-map :
      (P : A → Type μ) (f : A → A)
      → ((x y : A) → P x → P y → R x y → R (f x) (f y))
      → (xs : List A) → All P xs
      → Pairwise R xs
      → Pairwise R (map f xs)
  Pairwise-map P f step [] p r = tt
  Pairwise-map P f step (x ∷ xs) p r =
      (All-map_rel P f step x p.0 xs p.1 r.0, Pairwise-map P f step xs p.1 r.1)

-- What `first_of_test` finds passes the test and has what every element has.
pub All-first_of_test {ℓ κ} :
    {A : Type ℓ} (P : A → Type κ) (test : A → Bool) (xs : List A) {x : A}
    → All P xs
    → first_of_test test xs ≡ some x
    → P x × (test x ≡ true)
unfolding first_of_test
All-first_of_test P test [] h e = cc
All-first_of_test P test (y ∷ ys) h e = elim (Bool-cases (test y)) [
  | inl t ↦
      (subst P (some_inj (rw t at e)) h.0, subst (λ z. test z ≡ true) (some_inj (rw t at e)) t)
  | inr t ↦ All-first_of_test P test ys h.1 (rw t at e)
]

pub keep-none {ℓ} :
    {A : Type ℓ} (test : A → Bool) (xs : List A) → All (λ x. test x ≡ false) xs → keep test xs ≡ []
unfolding keep
keep-none test [] h = refl
keep-none test (x ∷ xs) h = rw h.0 (keep-none test xs h.1)

-- A change that keeps the test may be made after the search.
pub first_of_test-map {ℓ} :
    {A : Type ℓ} (test : A → Bool) (f : A → A)
    → ((x : A) → test (f x) ≡ test x)
    → (xs : List A) {x : A} → first_of_test test xs ≡ some x
    → first_of_test test (map f xs) ≡ some (f x)
unfolding first_of_test
first_of_test-map test f h [] e = cc
first_of_test-map test f h (y ∷ ys) e = elim (Bool-cases (test y)) [
  | inl t ↦ rw (h y, t) (ap (λ z. some (f z)) (some_inj (rw t at e)))
  | inr t ↦ rw (h y, t) (first_of_test-map test f h ys (rw t at e))
]

pub any_of-map {ℓ} :
    {A : Type ℓ} (test : A → Bool) (f : A → A)
    → ((x : A) → test (f x) ≡ test x)
    → (xs : List A) → any_of test (map f xs) ≡ any_of test xs
any_of-map test f h [] = refl
any_of-map test f h (x ∷ xs) = rw (h x, any_of-map test f h xs)

-- A search finds an element exactly if there is one.
pub first_of_any {ℓ} :
    {A : Type ℓ} (test : A → Bool) (xs : List A)
    → any_of test xs ≡ true
    → (x : A) × (first_of_test test xs ≡ some x)
unfolding first_of_test
first_of_any test [] h = cc
first_of_any test (x ∷ xs) h = elim (Bool-cases (test x)) [
  | inl t ↦ (x, rw t)
  | inr t ↦ rw t (first_of_any test xs (rw t at h))
]

pub first_of_none {ℓ} :
    {A : Type ℓ} (test : A → Bool) (xs : List A)
    → any_of test xs ≡ false
    → first_of_test test xs ≡ none
unfolding first_of_test
first_of_none test [] h = refl
first_of_none test (x ∷ xs) h = elim (Bool-cases (test x)) [
  | inl t ↦ cc (rw t at h)
  | inr t ↦ rw t (first_of_none test xs (rw t at h))
]
