-- ===== src/Selection/Walk.antt =====
-- project/selection.py: the loop of `upstream_sources`. `pending.pop()` takes the last element of a
-- Python list, so the model keeps the list with its last element first. The loop takes fuel: a
-- round for each selected node and for each dependency that the manifest lists is enough.
use dbtv.Common.{
  ℕ, zero, suc, ◌+◌, String, Bool, true, false, List, [], ◌∷◌, ◌++◌, Option, none, some,
  if◌then◌else◌, length, sum_of, member, lookup, add, sorted,
}
use dbtv.Models.{NormalizedNode, NormalizedManifest, source}
use mathlib.Core.List.{reverse}

abbrev pub is_source : NormalizedNode → Bool
is_source node = elim node.resource_type [ source ↦ true | _ ↦ false ]

pub record Walk : Type 0 where
  pub pending : List String
  pub visited : List String
  pub sources : List String

abbrev pub Nodes : Type 0
Nodes = List (String × NormalizedNode)

-- What the loop does with a node that it had not visited; `pending` is what is left of the list.
abbrev pub visit_node : Option NormalizedNode → String → Walk → Walk
visit_node none u w = record w { visited = u ∷ w.visited }
visit_node (some node) u w =
    if is_source node
    then record w { visited = u ∷ w.visited; sources = add u w.sources }
    else record w { visited = u ∷ w.visited; pending = node.depends_on_nodes ++ w.pending }

unfoldable pub visit_next : Nodes → String → Walk → Walk
visit_next nodes u w = if member u w.visited then w else visit_node (lookup u nodes) u w

-- `none` when the fuel runs out.
unfoldable pub walk : ℕ → Nodes → List String → List String → List String → Option (List String)
walk fuel nodes [] visited sources = some sources
walk zero nodes (u ∷ pending) visited sources = none
walk (suc fuel) nodes (u ∷ pending) visited sources =
    let w =
      visit_next nodes u (record { pending = pending; visited = visited; sources = sources }) in
    walk fuel nodes w.pending w.visited w.sources

-- The dependencies of the nodes that are not visited.
abbrev pub open_weight : List String → (String × NormalizedNode) → ℕ
open_weight visited (u, node) = if member u visited then 0 else length node.depends_on_nodes

abbrev pub weight : Nodes → List String → ℕ
weight nodes visited = sum_of (open_weight visited) nodes

unfoldable pub upstream_sources : NormalizedManifest → List String → Option (List String)
unfolding walk
upstream_sources manifest selected =
    let fuel = length selected + weight manifest.nodes [] in
    elim (walk fuel manifest.nodes (reverse selected) [] []) [
      | none ↦ none
      | some sources ↦ some (sorted sources)
    ]
