-- ===== src/Boundaries/Tests.antt =====
-- Runs on a small manifest with a cycle.
use dbtv.Common.{
  String, ◌≡◌, refl, true, false, keep, List, [], ◌∷◌, none, some, All, ◌↔◌, member, lookup, sorted,
  add,
}
use dbtv.Models.{NormalizedNode, model, source}
use dbtv.Selection.Tests.{shop}
use dbtv.Boundaries.Visit.{walk_parents, note, is_entered}
use dbtv.Boundaries.Visited.{has_note, Enters, HasParent}
use dbtv.Boundaries.Notes.{written_keys, in_written_order}
use dbtv.Boundaries.Listed.{node_ids, boundary_ids}
use dbtv.Boundaries.Lineage.{
  Lineage, all_parents, lineage, lineage_nodes, scheduled, Boundary, boundaries_at,
  dependency_boundaries, is_passed, is_boundary,
}
use dbtv.Boundaries.Exact.{NeededBy, lineage_exact, dependency_boundaries_exact}

abbrev same_order : List String → List String
same_order xs = xs

lineage-shop :
    lineage shop ("b" ∷ [])
    ≡ some (record {
      nodes =
          record { unique_id = "a"; selected = false; resource_type = model; relation = none }
          ∷ record { unique_id = "b"; selected = true; resource_type = model; relation = none }
          ∷ record { unique_id = "s"; selected = false; resource_type = source; relation = none }
          ∷ record { unique_id = "t"; selected = false; resource_type = source; relation = none }
          ∷ [];
      edges = ("a", "b") ∷ ("t", "a") ∷ ("b", "a") ∷ ("s", "a") ∷ ("gone", "b") ∷ [];
    })
unfolding lineage walk_parents note is_entered in_written_order lineage_nodes sorted member lookup
lineage-shop = refl

dependency_boundaries-shop :
    dependency_boundaries same_order shop ("z" ∷ "s" ∷ []) "run"
    ≡ some
        (record { unique_id = "b"; resource_type = model; relation = none; needed_by = "z" } ∷ [])
unfolding dependency_boundaries walk_parents note is_entered boundaries_at written_keys is_passed
    is_boundary sorted member lookup add keep
dependency_boundaries-shop = refl

lineage_exact_example :
    (l : Lineage) × (lineage shop ("b" ∷ []) ≡ some l)
    × ((u : String)
        → (member u (node_ids l.nodes) ≡ true) ↔ (
            Enters all_parents shop.nodes ("b" ∷ []) u
            × ((node : NormalizedNode) × (lookup u shop.nodes ≡ some node))))
    × ((p u : String)
        → (has_note p u l.edges ≡ true) ↔ HasParent all_parents shop.nodes ("b" ∷ []) u p)
lineage_exact_example = lineage_exact shop ("b" ∷ [])

dependency_boundaries_exact_example :
    (bs : List Boundary) × (dependency_boundaries same_order shop ("z" ∷ "s" ∷ []) "run" ≡ some bs)
    × ((p : String)
        → (member p (boundary_ids bs) ≡ true)
          ↔ ((u : String) × NeededBy shop (scheduled shop.nodes ("z" ∷ "s" ∷ []) "run") p u))
    × All
        (λ b. NeededBy shop (scheduled shop.nodes ("z" ∷ "s" ∷ []) "run") b.unique_id b.needed_by)
        bs
dependency_boundaries_exact_example =
    dependency_boundaries_exact same_order shop ("z" ∷ "s" ∷ []) "run" (λ u set. refl)
