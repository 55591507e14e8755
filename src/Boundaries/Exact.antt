-- ===== src/Boundaries/Exact.antt =====
-- What `lineage` and `dependency_boundaries` return, by what the nodes lead to.
use dbtv.Common.{
  String, ◌≡◌, refl, true, List, [], some, All, member, member-sorted, lookup, sorted, ◌↔◌, sym,
  ◌∙◌,
}
use dbtv.Models.{NormalizedNode, NormalizedManifest}
use dbtv.Selection.{Nodes}
use dbtv.Boundaries.Visit.{Rules}
use dbtv.Boundaries.Visited.{has_note, Enters, first_node, parent_node, HasParent}
use dbtv.Boundaries.Complete.{explore_total}
use dbtv.Boundaries.Listed.{
  node_ids, boundary_ids, listed-found, found-listed, listed-noted, noted-listed, boundaries_at-All,
  boundary-found,
}
use dbtv.Boundaries.Notes.{
  written_keys, in_written_order, in_written_order-note, note-written_keys, lookup-note,
  written_keys-lookup,
}
use dbtv.Boundaries.Lineage.{
  Lineage, all_parents, lineage_nodes, lineage, scheduled, is_boundary, boundary_rules, Boundary,
  boundaries_at, dependency_boundaries,
}

-- The call returns for every manifest, cyclic ones included. Its nodes are exactly those of the manifest that
-- the selected nodes lead to by dependencies, the selected ones included, and its edges are exactly the
-- dependencies of these nodes.
pub lineage_exact :
    (manifest : NormalizedManifest) (selected : List String)
    → (l : Lineage) × (lineage manifest selected ≡ some l)
      × ((u : String)
          → (member u (node_ids l.nodes) ≡ true) ↔ (
              Enters all_parents manifest.nodes selected u
              × ((node : NormalizedNode) × (lookup u manifest.nodes ≡ some node))))
      × ((p u : String)
          → (has_note p u l.edges ≡ true) ↔ HasParent all_parents manifest.nodes selected u p)
unfolding lineage
lineage_exact manifest selected =
    let nodes = manifest.nodes in
    let (t, eq, x) = explore_total all_parents nodes selected in
    (
      record {
        nodes = lineage_nodes nodes selected (sorted t.visited);
        edges = in_written_order [] t.noted;
      },
      rw (lineage, eq) refl,
      λ u. (
        λ h.
            let (m, found) = listed-found nodes selected u (sorted t.visited) h in
            (x.sound.visited_entered u (sym (member-sorted u t.visited) ∙ m), found),
        λ (r, (node, found)).
            found-listed nodes selected u (sorted t.visited) node found
              (member-sorted u t.visited ∙ x.entered u r),
      ),
      λ p u. (
        λ h. (x.sound.noted_parents p u (sym (in_written_order-note p u [] t.noted) ∙ h)).0,
        λ r. in_written_order-note p u [] t.noted ∙ x.parents p u r refl,
      ),
    )

module _ (rules : Rules) (nodes : Nodes) (a b : List String)
    (within : (x : String) → member x a ≡ true → member x b ≡ true) where
  Enters-first : (u : String) → Enters rules nodes a u → Enters rules nodes b u
  Enters-first u (first_node _ h) = first_node u (within u h)
  Enters-first v (parent_node u _ node r found m e) =
      parent_node u v node (Enters-first u r) found m e

  HasParent-first : (u p : String) → HasParent rules nodes a u p → HasParent rules nodes b u p
  HasParent-first u p h = record {
    entered = Enters-first u h.entered;
    node = h.node;
    found = h.found;
    listed = h.listed;
  }

-- The parent is a boundary of the node: the scheduled nodes lead to the node by parents that are scheduled or
-- ephemeral, and the parent is a model, a seed or a snapshot and neither of both.
pub record NeededBy (manifest : NormalizedManifest) (planned : List String) (p u : String)
    : Type 0 where
  pub parent : HasParent (boundary_rules manifest.nodes planned) manifest.nodes planned u p
  pub boundary : is_boundary manifest.nodes planned p ≡ true

-- In whatever order Python goes over the set of scheduled nodes, the call returns for every manifest, cyclic
-- ones included. The boundaries are exactly the nodes that some node needs, and each says one that needs it.
pub dependency_boundaries_exact :
    (iterate : List String → List String) (manifest : NormalizedManifest) (selected : List String)
    (command : String)
    → ((u : String) (set : List String) → member u (iterate set) ≡ member u set)
    → let planned = scheduled manifest.nodes selected command in
      (bs : List Boundary) × (dependency_boundaries iterate manifest selected command ≡ some bs)
      × ((p : String)
          → (member p (boundary_ids bs) ≡ true) ↔ ((u : String) × NeededBy manifest planned p u))
      × All (λ b. NeededBy manifest planned b.unique_id b.needed_by) bs
unfolding dependency_boundaries
dependency_boundaries_exact iterate manifest selected command same =
    let nodes = manifest.nodes in
    let planned = scheduled nodes selected command in
    let rules = boundary_rules nodes planned in
    let (t, eq, x) = explore_total rules nodes (iterate planned) in
    let needed : (p u : String) → has_note p u t.noted ≡ true → NeededBy manifest planned p u =
      λ p u h.
        let (parent, boundary) = x.sound.noted_parents p u h in
        record {
          parent =
              HasParent-first rules nodes (iterate planned) planned
                (λ k m. sym (same k planned) ∙ m) u p parent;
          boundary = boundary;
        } in
    (
      boundaries_at nodes t.noted (sorted (written_keys t.noted)),
      rw (dependency_boundaries, eq) refl,
      λ p. (
        λ h.
            let (u, e) =
              written_keys-lookup p t.noted
                (sym (member-sorted p (written_keys t.noted)) ∙ listed-noted nodes t.noted p _ h) in
            (u, needed p u (lookup-note p u t.noted e)),
        λ (u, n).
            let there =
              x.parents p u
                (HasParent-first rules nodes planned (iterate planned) (λ k m. same k planned ∙ m) u
                  p n.parent)
                n.boundary in
            let kept = note-written_keys p u t.noted there in
            let (child, e) = written_keys-lookup p t.noted kept in
            let (node, found) = boundary-found nodes planned p n.boundary in
            noted-listed nodes t.noted p child (sorted (written_keys t.noted)) node found e
              (member-sorted p (written_keys t.noted) ∙ kept),
      ),
      boundaries_at-All nodes t.noted (sorted (written_keys t.noted))
          (λ b h. needed b.unique_id b.needed_by h),
    )
