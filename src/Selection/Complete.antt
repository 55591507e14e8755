-- ===== src/Selection/Complete.antt =====
-- The sources found are those that the selected nodes reach.
use dbtv.Common.{
  ℕ, zero, suc, ◌+◌, ◌≤◌, String, ◌≡◌, refl, ap, ◌∙◌, sym, true, false, ◌==◌, eq_iff, List, [], ◌∷◌,
  some, length, length-append, member, member-append, member-sorted, lookup, sorted, Bool-cases,
  Option-cases, inl, inr, ◌↔◌, arith, some_inj,
}
use mathlib.Core.List.{reverse, reverse-append}
use dbtv.Models.{NormalizedNode, NormalizedManifest}
use dbtv.Selection.Walk.{is_source, Nodes, visit_node, visit_next, walk, weight, upstream_sources}
use dbtv.Selection.Reached.{IsSourceNode, Reaches, selected_node, dependency, Inv}
use dbtv.Selection.Steps.{I, walk_of, step-Inv}

-- The weight of what is open falls by the dependencies of the node that is visited.
weight-visit-le :
    (u : String) (visited : List String) (nodes : Nodes)
    → weight nodes (u ∷ visited) ≤ weight nodes visited
unfolding member
weight-visit-le u visited [] = omega arith
weight-visit-le u visited ((k, node) ∷ rest) = ground (arith, weight-visit-le u visited rest)

weight-visit-drop :
    (u : String) (visited : List String) (nodes : Nodes) (node : NormalizedNode)
    → lookup u nodes ≡ some node
    → member u visited ≡ false
    → length node.depends_on_nodes + weight nodes (u ∷ visited) ≤ weight nodes visited
unfolding member lookup
weight-visit-drop u visited [] node e h = cc
weight-visit-drop u visited ((k, n) ∷ rest) node e h = elim (Bool-cases (k == u)) [
  | inl t ↦ ground (
    arith,
    h,
    t,
    eq_iff k u,
    eq_iff u k,
    weight-visit-le u visited rest,
    ap (λ (x : NormalizedNode). length x.depends_on_nodes) (some_inj (rw t at e)),
    ap (λ x. member x visited) ((eq_iff k u).0 t),
  )
  | inr t ↦
      ground
        (arith, h, t, eq_iff u k, eq_iff k u, weight-visit-drop u visited rest node (rw t at e) h)
]

module _ (nodes : Nodes) (selected : List String) where
  -- One round takes from what is left to do.
  step-weight :
      (u : String) (p v s : List String)
      → length (visit_next nodes u (walk_of nodes selected p v s)).pending
          + weight nodes (visit_next nodes u (walk_of nodes selected p v s)).visited
        ≤ length p + weight nodes v
  unfolding visit_next
  step-weight u p v s = elim (Bool-cases (member u v)) [
    | inl t ↦ rw t (omega arith)
    | inr t ↦ elim (Option-cases (lookup u nodes)) [
      | inl m ↦ rw (t, m) (omega (arith, weight-visit-le u v nodes))
      | inr (node, m) ↦ elim (Bool-cases (is_source node)) [
        | inl src ↦ rw (t, m, visit_node, src) (omega (arith, weight-visit-le u v nodes))
        | inr src ↦
            rw (t, m, visit_node, src)
              (omega (
                arith,
                weight-visit-drop u v nodes node m t,
                length-append node.depends_on_nodes p,
              ))
      ]
    ]
  ]

  -- Enough fuel: the loop ends, and its invariant holds at the end.
  walk_total :
      (fuel : ℕ) (p v s : List String)
      → length p + weight nodes v ≤ fuel
      → I nodes selected (walk_of nodes selected p v s)
      → (sources visited : List String) × (walk fuel nodes p v s ≡ some sources)
        × I nodes selected (walk_of nodes selected [] visited sources)
  unfolding walk
  walk_total fuel [] v s h inv = (s, v, refl, inv)
  walk_total zero (u ∷ p) v s h inv = absurd (omega arith)
  walk_total (suc fuel) (u ∷ p) v s h inv =
      let w = visit_next nodes u (walk_of nodes selected p v s) in
      walk_total fuel w.pending w.visited w.sources (omega (arith, step-weight u p v s))
        (step-Inv nodes selected u p v s inv)

member-reverse : (x : String) (xs : List String) → member x (reverse xs) ≡ member x xs
unfolding member
member-reverse x [] = refl
member-reverse x (y ∷ ys) =
    ap (member x) (reverse-append (y ∷ []) ys)
    ∙ ground (arith, member-append x (reverse ys) (reverse (y ∷ [])), member-reverse x ys)

length-reverse : (xs : List String) → length (reverse xs) ≡ length xs
length-reverse [] = refl
length-reverse (y ∷ ys) =
    ap (λ (l : List String). length l) (reverse-append (y ∷ []) ys)
    ∙ omega (arith, length-append (reverse ys) (reverse (y ∷ [])), length-reverse ys)

module _ (nodes : Nodes) (selected : List String) where
  Inv-start : Inv nodes selected (record { pending = reverse selected; visited = []; sources = [] })
  unfolding member
  Inv-start = record {
    pending_reached = λ u h. selected_node u (sym (member-reverse u selected) ∙ h);
    sources_reached = λ u h. cc;
    sources_kept = λ u h i. cc;
    closed = λ u v node h e n m. cc;
    started = λ u h. member-reverse u selected ∙ h;
  }

  -- At the end every node that is reached was visited.
  reached-visited :
      (visited sources : List String)
      → Inv nodes selected (record { pending = []; visited = visited; sources = sources })
      → (u : String) → Reaches nodes selected u
      → member u visited ≡ true
  unfolding member
  reached-visited visited sources inv u (selected_node _ h) = ground (arith, inv.started u h)
  reached-visited visited sources inv v (dependency u _ node r e n h) =
      ground (arith, inv.closed u v node (reached-visited visited sources inv u r) e n h)

-- The call returns, and what it returns is exactly the sources that the selected nodes reach by the
-- dependencies of nodes that are no sources. This holds for every manifest, cyclic ones included.
pub upstream_sources_exact :
    (manifest : NormalizedManifest) (selected : List String)
    → (sources : List String) × (upstream_sources manifest selected ≡ some sources)
      × ((u : String)
          → (member u sources ≡ true)
            ↔ (Reaches manifest.nodes selected u × IsSourceNode manifest.nodes u))
unfolding upstream_sources
upstream_sources_exact manifest selected =
    let nodes = manifest.nodes in
    let (sources, visited, e, inv) =
      walk_total nodes selected (length selected + weight nodes []) (reverse selected) [] []
        (omega (arith, length-reverse selected)) (Inv-start nodes selected) in
    (
      sorted sources,
      rw (e, upstream_sources),
      λ u. (
        λ h. inv.sources_reached u (sym (member-sorted u sources) ∙ h),
        λ (r, i).
            member-sorted u sources
            ∙ inv.sources_kept u (reached-visited nodes selected visited sources inv u r) i,
      ),
    )
