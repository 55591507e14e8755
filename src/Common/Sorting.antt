-- ===== src/Common/Sorting.antt =====
-- Python's sets of texts and `sorted` on them.
use Prim.Native.String.{String, compare}
use Prim.Native.Nat.{Ordering}
use mathlib.Core.Path.{◌≡◌, refl}
use mathlib.Core.Bool.{Bool, true, false, ◌||◌}
use mathlib.Core.List.{List, [], ◌∷◌, ◌++◌}
use native.Mathlib.Omega.{arith}
use text.Mathlib.Text.{◌==◌}
use text.Mathlib.TextEquality.{eq_iff}
use dbtv.Common.Tests.{if◌then◌else◌}
use dbtv.Common.Keys.{member, member-append}

-- The order of texts by code points.
abbrev pub text_le : String → String → Bool
text_le a b = elim (compare a b) [ Ordering.gt ↦ false | _ ↦ true ]

unfoldable pub place_text : String → List String → List String
place_text x [] = x ∷ []
place_text x (y ∷ ys) = if text_le x y then x ∷ y ∷ ys else y ∷ place_text x ys

unfoldable pub sorted : List String → List String
unfolding place_text
sorted [] = []
sorted (x ∷ xs) = place_text x (sorted xs)

-- `s.add(k)`.
unfoldable pub add : String → List String → List String
add k s = if member k s then s else s ++ k ∷ []

member-place_text :
    (k x : String) (ys : List String) → member k (place_text x ys) ≡ (x == k || member k ys)
unfolding place_text member
member-place_text k x [] = refl
member-place_text k x (y ∷ ys) = ground (arith, member-place_text k x ys)

pub member-sorted : (k : String) (xs : List String) → member k (sorted xs) ≡ member k xs
unfolding sorted member
member-sorted k [] = refl
member-sorted k (x ∷ xs) = ground (arith, member-place_text k x (sorted xs), member-sorted k xs)

pub member-add : (k j : String) (s : List String) → member k (add j s) ≡ (j == k || member k s)
unfolding add member
member-add k j s = ground (arith, member-append k s (j ∷ []), eq_iff j k)
