-- ===== src/Cancellation/Counts.antt =====
-- How often a callback stands in a list.
use dbtv.Common.{
  ℕ, ◌+◌, ◌≡◌, Bool, true, false, List, [], ◌∷◌, ◌++◌, nat_eq, arith, ap, Bool-cases, inl, inr,
}
use dbtv.Cancellation.Token.{has, remove}

abbrev pub one_if : Bool → ℕ
one_if true = 1
one_if false = 0

unfoldable pub count : ℕ → List ℕ → ℕ
count c [] = 0
count c (x ∷ xs) = one_if (nat_eq x c) + count c xs

pub count-append : (c : ℕ) (xs ys : List ℕ) → count c (xs ++ ys) ≡ count c xs + count c ys
unfolding count
count-append c [] ys = omega arith
count-append c (x ∷ xs) ys = omega (arith, count-append c xs ys)

nat_eq→≡ : (a b : ℕ) → nat_eq a b ≡ true → a ≡ b
nat_eq→≡ a b h = ground arith

pub count-remove :
    (c d : ℕ) (xs : List ℕ)
    → has d xs ≡ true
    → count c xs ≡ one_if (nat_eq d c) + count c (remove d xs)
unfolding count has remove
count-remove c d [] h = cc
count-remove c d (x ∷ xs) h = elim (Bool-cases (nat_eq x d)) [
  | inl t ↦ rw t (ap (λ k. one_if (nat_eq k c) + count c xs) (nat_eq→≡ x d t))
  | inr t ↦ rw t (omega (arith, count-remove c d xs (rw t at h)))
]
