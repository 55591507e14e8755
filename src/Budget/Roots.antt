-- ===== src/Budget/Roots.antt =====
-- resources.py: `_distinct_roots`, `_size` and `check_disk`. A resolved path is the list of its parts,
-- and what stands at a path is a tree; a file that vanishes while it is measured counts nothing.
use dbtv.Common.{
  ℕ, ◌+◌, max, String, Bool, true, false, ◌&&◌, ◌==◌, List, [], ◌∷◌, ◌++◌, if◌then◌else◌, ltb, leb,
  any_of, length, sum_of,
}
use dbtv.Errors.{Result, ok, err, policy_error}

abbrev pub PathOf : Type 0
PathOf = List String

-- `path.is_relative_to(parent)`.
unfoldable pub is_relative_to : PathOf → PathOf → Bool
is_relative_to path [] = true
is_relative_to [] (y ∷ parent) = false
is_relative_to (x ∷ path) (y ∷ parent) = x == y && is_relative_to path parent

-- `sorted(..., key=lambda path: len(path.parts))`.
unfoldable pub place_path : PathOf → List PathOf → List PathOf
place_path p [] = p ∷ []
place_path p (q ∷ qs) = if leb (length p) (length q) then p ∷ q ∷ qs else q ∷ place_path p qs

unfoldable pub by_length : List PathOf → List PathOf
unfolding place_path
by_length [] = []
by_length (p ∷ ps) = place_path p (by_length ps)

-- The loop, on the result so far.
unfoldable pub add_roots : List PathOf → List PathOf → List PathOf
unfolding is_relative_to
add_roots result [] = result
add_roots result (p ∷ ps) =
    add_roots (if any_of (is_relative_to p) result then result else result ++ p ∷ []) ps

unfoldable pub distinct_roots : List PathOf → List PathOf
unfolding add_roots by_length
distinct_roots paths = add_roots [] (by_length paths)

mutual
  pub data Tree : Type 0 where
    absent symlink : Tree
    file : ℕ → Tree
    directory : Trees → Tree

  pub data Trees : Type 0 where
    leaf : Trees
    child : Tree → Trees → Trees

-- `_size`.
unfoldable mutual
  pub size : Tree → ℕ
  size absent = 0
  size symlink = 0
  size (file n) = n
  size (directory children) = sizes children

  pub sizes : Trees → ℕ
  sizes leaf = 0
  sizes (child t ts) = size t + sizes ts

pub record DiskLimits : Type 0 where
  pub max_workspace_bytes : ℕ
  pub maximum_size : ℕ
  pub minimum_free_disk : ℕ

-- The loop over the roots: `free` is the free space at the nearest directory that exists.
unfoldable pub check_free : ℕ → (PathOf → ℕ) → List PathOf → Result (Unit {0})
check_free minimum free [] = ok tt
check_free minimum free (p ∷ ps) =
    let rest = check_free minimum free ps in if ltb (free p) minimum then err policy_error else rest

-- `check_disk`, with the peak before and after it.
unfoldable pub check_disk :
    DiskLimits → List PathOf → PathOf → (PathOf → Tree) → (PathOf → ℕ) → ℕ → ℕ × Result (Unit {0})
unfolding size sizes check_free
check_disk limits roots cache_root tree free peak =
    let usage = sum_of (λ p. size (tree p)) roots in
    (
      max peak usage,
      if ltb limits.max_workspace_bytes usage
          then err policy_error
          else if ltb limits.maximum_size (size (tree cache_root))
          then err policy_error
          else check_free limits.minimum_free_disk free roots,
    )
