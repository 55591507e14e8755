-- ===== src/Boundaries/Listed.antt =====
-- The entries of the two outputs, by their ids.
use dbtv.Common.{
  String, ◌≡◌, refl, true, ◌==◌, eq_iff, List, [], ◌∷◌, map, some, All, member, lookup, Bool-cases,
  Option-cases, inl, inr, arith, ap, sym, ◌∙◌,
}
use dbtv.Models.{NormalizedNode}
use dbtv.Selection.{Nodes}
use dbtv.Boundaries.Visited.{has_note}
use dbtv.Boundaries.Notes.{lookup-note}
use dbtv.Boundaries.Lineage.{LineageNode, lineage_nodes, is_boundary, Boundary, boundaries_at}

abbrev pub node_ids : List LineageNode → List String
node_ids nodes = map (λ (n : LineageNode). n.unique_id) nodes

abbrev pub boundary_ids : List Boundary → List String
boundary_ids bs = map (λ (b : Boundary). b.unique_id) bs

pub listed-found :
    (nodes : Nodes) (selected : List String) (u : String) (items : List String)
    → member u (node_ids (lineage_nodes nodes selected items)) ≡ true
    → (member u items ≡ true) × ((node : NormalizedNode) × (lookup u nodes ≡ some node))
unfolding lineage_nodes member
listed-found nodes selected u [] h = cc
listed-found nodes selected u (item ∷ items) h = elim (Option-cases (lookup item nodes)) [
  | inl gone ↦
      let (m, found) = listed-found nodes selected u items (rw (lineage_nodes, gone) at h) in
      (ground (arith, m), found)
  | inr (node, found) ↦ elim (Bool-cases (item == u)) [
    | inl e ↦ (rw e refl, (node, ap (λ k. lookup k nodes) (sym ((eq_iff item u).0 e)) ∙ found))
    | inr e ↦
        let (m, there) = listed-found nodes selected u items (rw (lineage_nodes, found, e) at h) in
        (ground (arith, m), there)
  ]
]

pub found-listed :
    (nodes : Nodes) (selected : List String) (u : String) (items : List String)
    (node : NormalizedNode)
    → lookup u nodes ≡ some node
    → member u items ≡ true
    → member u (node_ids (lineage_nodes nodes selected items)) ≡ true
unfolding lineage_nodes member
found-listed nodes selected u [] node e m = cc
found-listed nodes selected u (item ∷ items) node e m = elim (Bool-cases (item == u)) [
  | inl y ↦ rw (lineage_nodes, ap (λ k. lookup k nodes) ((eq_iff item u).0 y), e, y) refl
  | inr y ↦
      let rest = found-listed nodes selected u items node e (rw y at m) in
      elim (Option-cases (lookup item nodes)) [
        | inl gone ↦ rw (lineage_nodes, gone) rest
        | inr (other, found) ↦ rw (lineage_nodes, found, y) rest
      ]
]

pub listed-noted :
    (nodes : Nodes) (noted : List (String × String)) (u : String) (items : List String)
    → member u (boundary_ids (boundaries_at nodes noted items)) ≡ true
    → member u items ≡ true
unfolding boundaries_at member
listed-noted nodes noted u [] h = cc
listed-noted nodes noted u (key ∷ rest) h = elim (Option-cases (lookup key nodes)) [
  | inl gone ↦ ground (arith, listed-noted nodes noted u rest (rw (boundaries_at, gone) at h))
  | inr (node, found) ↦ elim (Option-cases (lookup key noted)) [
    | inl gone ↦
        ground (arith, listed-noted nodes noted u rest (rw (boundaries_at, found, gone) at h))
    | inr (child, e) ↦ elim (Bool-cases (key == u)) [
      | inl y ↦ rw y refl
      | inr y ↦ rw y (listed-noted nodes noted u rest (rw (boundaries_at, found, e, y) at h))
    ]
  ]
]

pub noted-listed :
    (nodes : Nodes) (noted : List (String × String)) (u child : String) (items : List String)
    (node : NormalizedNode)
    → lookup u nodes ≡ some node
    → lookup u noted ≡ some child
    → member u items ≡ true
    → member u (boundary_ids (boundaries_at nodes noted items)) ≡ true
unfolding boundaries_at member
noted-listed nodes noted u child [] node e c m = cc
noted-listed nodes noted u child (key ∷ rest) node e c m = elim (Bool-cases (key == u)) [
  | inl y ↦
      rw
        (
          boundaries_at,
          ap (λ k. lookup k nodes) ((eq_iff key u).0 y),
          e,
          ap (λ k. lookup k noted) ((eq_iff key u).0 y),
          c,
          y,
        )
        refl
  | inr y ↦
      let others = noted-listed nodes noted u child rest node e c (rw y at m) in
      elim (Option-cases (lookup key nodes)) [
        | inl gone ↦ rw (boundaries_at, gone) others
        | inr (other, found) ↦ elim (Option-cases (lookup key noted)) [
          | inl gone ↦ rw (boundaries_at, found, gone) others
          | inr (parent, there) ↦ rw (boundaries_at, found, there, y) others
        ]
      ]
]

pub boundaries_at-All {ℓ} :
    {P : Boundary → Type ℓ} (nodes : Nodes) (noted : List (String × String)) (items : List String)
    → ((b : Boundary) → has_note b.unique_id b.needed_by noted ≡ true → P b)
    → All P (boundaries_at nodes noted items)
unfolding boundaries_at
boundaries_at-All nodes noted [] h = tt
boundaries_at-All nodes noted (key ∷ rest) h = elim (Option-cases (lookup key nodes)) [
  | inl gone ↦ rw (boundaries_at, gone) (boundaries_at-All nodes noted rest h)
  | inr (node, found) ↦ elim (Option-cases (lookup key noted)) [
    | inl gone ↦ rw (boundaries_at, found, gone) (boundaries_at-All nodes noted rest h)
    | inr (child, e) ↦
        rw (boundaries_at, found, e)
          (h _ (lookup-note key child noted e), boundaries_at-All nodes noted rest h)
  ]
]

pub boundary-found :
    (nodes : Nodes) (planned : List String) (p : String)
    → is_boundary nodes planned p ≡ true
    → (node : NormalizedNode) × (lookup p nodes ≡ some node)
unfolding is_boundary
boundary-found nodes planned p h = elim (Option-cases (lookup p nodes)) [
  | inl gone ↦ absurd (ground (arith, rw (is_boundary, gone) at h))
  | inr found ↦ found
]
