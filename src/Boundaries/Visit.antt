-- ===== src/Boundaries/Visit.antt =====
-- project/boundaries.py: the nested functions `visit` of `dependency_boundaries` and of `lineage`. Both
-- walk the dependencies depth first and write down pairs of a parent and a node; they differ in which
-- parents they write down and which they enter. The depth of the recursion is fuel: a level for each node
-- of the manifest and one more is enough.
use dbtv.Common.{
  ℕ, zero, suc, String, Bool, true, false, not, ◌&&◌, List, [], ◌∷◌, Option, none, some,
  if◌then◌else◌, sum_of, member, lookup,
}
use dbtv.Models.{NormalizedNode}
use dbtv.Selection.{Nodes}

-- What the loop over the parents does with one of them.
pub record Rules : Type 0 where
  pub enters : String → Bool
  pub notes : String → Bool

-- The set `visited`, and the pairs of a parent and a node that were written down, the last one first.
pub record Trail : Type 0 where
  pub visited : List String
  pub noted : List (String × String)

abbrev pub mark : String → Trail → Trail
mark u t = record t { visited = u ∷ t.visited }

-- The first calls have no node whose parents are looked at: they enter.
unfoldable pub is_entered : Rules → Option String → String → Bool
is_entered rules none p = true
is_entered rules (some child) p = rules.enters p

unfoldable pub note : Rules → Option String → String → Trail → Trail
note rules none p t = t
note rules (some child) p t = if rules.notes p then record t { noted = (p, child) ∷ t.noted } else t

-- The loop over the parents of a node, or over the first nodes, with its calls of `visit`: `none` when the
-- fuel runs out.
unfoldable pub walk_parents : Rules → Nodes → ℕ → Option String → List String → Trail → Option Trail
walk_parents rules nodes fuel child [] t = some t
walk_parents rules nodes zero child (p ∷ ps) t = none
walk_parents rules nodes (suc fuel) child (p ∷ ps) t =
    let noted = note rules child p t in
    elim (is_entered rules child p && not (member p t.visited)) [
      | false ↦ walk_parents rules nodes (suc fuel) child ps noted
      | true ↦ elim (lookup p nodes) [
        | none ↦ walk_parents rules nodes (suc fuel) child ps (mark p noted)
        | some node ↦
            elim (walk_parents rules nodes fuel (some p) node.depends_on_nodes (mark p noted)) [
              | none ↦ none
              | some after ↦ walk_parents rules nodes (suc fuel) child ps after
            ]
      ]
    ]

abbrev pub open_one : List String → (String × NormalizedNode) → ℕ
open_one visited (u, node) = if member u visited then 0 else 1

-- How many nodes are not visited.
abbrev pub unvisited : Nodes → List String → ℕ
unvisited nodes visited = sum_of (open_one visited) nodes

abbrev pub explore : Rules → Nodes → List String → Option Trail
explore rules nodes first =
    walk_parents rules nodes (suc (unvisited nodes [])) none first
      (record { visited = []; noted = [] })
