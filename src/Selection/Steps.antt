-- ===== src/Selection/Steps.antt =====
-- Each round of the loop keeps the invariant.
use dbtv.Common.{
  String, ◌≡◌, refl, ap, ◌∙◌, sym, subst, true, false, ◌||◌, ◌==◌, eq_iff, eq_refl, List, ◌∷◌, ◌++◌,
  none, some, member, member-append, member-add, lookup, add, Bool-cases, Option-cases, inl, inr,
  arith, some_inj, Bool-absurd,
}
use dbtv.Models.{NormalizedNode}
use dbtv.Selection.Walk.{is_source, Nodes, Walk, visit_node, visit_next}
use dbtv.Selection.Reached.{IsSourceNode, Reaches, dependency, Inv}

cons-pending :
    (u v : String) (visited pending : List String)
    → (member v visited || member v (u ∷ pending)) ≡ true
    → (member v (u ∷ visited) || member v pending) ≡ true
unfolding member
cons-pending u v visited pending h = ground arith

pop-pending :
    (u v : String) (visited pending : List String)
    → member u visited ≡ true
    → (member v visited || member v (u ∷ pending)) ≡ true
    → (member v visited || member v pending) ≡ true
unfolding member
pop-pending u v visited pending m h = elim (Bool-cases (u == v)) [
  | inl t ↦ ground (arith, m, ap (λ x. member x visited) ((eq_iff u v).0 t))
  | inr t ↦ ground (arith, t, h)
]

add-pending :
    (v : String) (visited deps pending : List String)
    → (member v visited || member v pending) ≡ true
    → (member v visited || member v (deps ++ pending)) ≡ true
add-pending v visited deps pending h = ground (arith, member-append v deps pending)

module _ (nodes : Nodes) (selected : List String) where
  abbrev pub I : Walk → Type 0
  I = Inv nodes selected

  abbrev pub walk_of : List String → List String → List String → Walk
  walk_of pending visited sources = record {
    pending = pending;
    visited = visited;
    sources = sources;
  }

  same_node :
      (u x : String) (a b : NormalizedNode)
      → (u == x) ≡ true
      → lookup u nodes ≡ some a
      → lookup x nodes ≡ some b
      → a ≡ b
  same_node u x a b t ha hb = some_inj (sym ha ∙ ap (λ k. lookup k nodes) ((eq_iff u x).0 t) ∙ hb)

  source_clash {ℓ} :
      {A : Type ℓ} (u x : String) (a b : NormalizedNode)
      → (u == x) ≡ true
      → lookup u nodes ≡ some a
      → lookup x nodes ≡ some b
      → is_source a ≡ true
      → is_source b ≡ false
      → A
  source_clash u x a b t ha hb p q =
      Bool-absurd (is_source b) (subst (λ n. is_source n ≡ true) (same_node u x a b t ha hb) p) q

  -- A node that was visited before.
  Inv-again :
      (u : String) (p v s : List String)
      → member u v ≡ true
      → I (walk_of (u ∷ p) v s)
      → I (walk_of p v s)
  unfolding member
  Inv-again u p v s m inv = record {
    pending_reached = λ x h. inv.pending_reached x (ground arith);
    sources_reached = inv.sources_reached;
    sources_kept = inv.sources_kept;
    closed = λ x y node hx e n hy. pop-pending u y v p m (inv.closed x y node hx e n hy);
    started = λ x h. pop-pending u x v p m (inv.started x h);
  }

  -- The node is new, and not in the manifest.
  Inv-unknown :
      (u : String) (p v s : List String)
      → lookup u nodes ≡ none
      → I (walk_of (u ∷ p) v s)
      → I (walk_of p (u ∷ v) s)
  unfolding member
  Inv-unknown u p v s m inv = record {
    pending_reached = λ x h. inv.pending_reached x (ground arith);
    sources_reached = inv.sources_reached;
    sources_kept = λ x h i. elim (Bool-cases (u == x)) [
      | inl t ↦ cc (m, (eq_iff u x).0 t, i.found)
      | inr t ↦ inv.sources_kept x (rw t at h) i
    ];
    closed = λ x y node hx e n hy. elim (Bool-cases (u == x)) [
      | inl t ↦ cc (m, (eq_iff u x).0 t, e)
      | inr t ↦ cons-pending u y v p (inv.closed x y node (rw t at hx) e n hy)
    ];
    started = λ x h. cons-pending u x v p (inv.started x h);
  }

  -- The node is a source.
  Inv-source :
      (u : String) (p v s : List String) (node : NormalizedNode)
      → lookup u nodes ≡ some node
      → is_source node ≡ true
      → I (walk_of (u ∷ p) v s)
      → I (walk_of p (u ∷ v) (add u s))
  unfolding member
  Inv-source u p v s node m src inv = record {
    pending_reached = λ x h. inv.pending_reached x (ground arith);
    sources_reached = λ x h. elim (Bool-cases (u == x)) [
      | inl t ↦
          subst (λ k. Reaches nodes selected k × IsSourceNode nodes k) ((eq_iff u x).0 t)
            (
              inv.pending_reached u (rw (eq_refl u) refl),
              record { node = node; found = m; is_source_node = src },
            )
      | inr t ↦ inv.sources_reached x (ground (arith, h, member-add x u s))
    ];
    sources_kept = λ x h i. elim (Bool-cases (u == x)) [
      | inl t ↦ rw (member-add, t)
      | inr t ↦ rw (member-add, t) (inv.sources_kept x (rw t at h) i)
    ];
    closed = λ x y node' hx e n hy. elim (Bool-cases (u == x)) [
      | inl t ↦ source_clash u x node node' t m e src n
      | inr t ↦ cons-pending u y v p (inv.closed x y node' (rw t at hx) e n hy)
    ];
    started = λ x h. cons-pending u x v p (inv.started x h);
  }

  -- The node is new and no source: its dependencies go on the list.
  Inv-node :
      (u : String) (p v s : List String) (node : NormalizedNode)
      → lookup u nodes ≡ some node
      → is_source node ≡ false
      → I (walk_of (u ∷ p) v s)
      → I (walk_of (node.depends_on_nodes ++ p) (u ∷ v) s)
  unfolding member
  Inv-node u p v s node m src inv = record {
    pending_reached = λ x h. elim (Bool-cases (member x node.depends_on_nodes)) [
      | inl t ↦ dependency u x node (inv.pending_reached u (rw (eq_refl u) refl)) m src t
      | inr t ↦ inv.pending_reached x (ground (arith, h, member-append x node.depends_on_nodes p))
    ];
    sources_reached = inv.sources_reached;
    sources_kept = λ x h i. elim (Bool-cases (u == x)) [
      | inl t ↦
          source_clash x u i.node node (ground (arith, t, eq_iff u x, eq_iff x u)) i.found m
            i.is_source_node src
      | inr t ↦ inv.sources_kept x (rw t at h) i
    ];
    closed = λ x y node' hx e n hy. elim (Bool-cases (u == x)) [
      | inl t ↦ ground (
        arith,
        member-append y node.depends_on_nodes p,
        hy,
        ap (λ (k : NormalizedNode). member y k.depends_on_nodes) (same_node u x node node' t m e),
      )
      | inr t ↦
          add-pending y (u ∷ v) node.depends_on_nodes p
            (cons-pending u y v p (inv.closed x y node' (rw t at hx) e n hy))
    ];
    started = λ x h.
        add-pending x (u ∷ v) node.depends_on_nodes p (cons-pending u x v p (inv.started x h));
  }

  pub step-Inv :
      (u : String) (p v s : List String)
      → I (walk_of (u ∷ p) v s)
      → I (visit_next nodes u (walk_of p v s))
  unfolding visit_next
  step-Inv u p v s inv = elim (Bool-cases (member u v)) [
    | inl t ↦ rw t (Inv-again u p v s t inv)
    | inr t ↦ elim (Option-cases (lookup u nodes)) [
      | inl m ↦ rw (t, m) (Inv-unknown u p v s m inv)
      | inr (node, m) ↦ elim (Bool-cases (is_source node)) [
        | inl src ↦ rw (t, m, visit_node, src) (Inv-source u p v s node m src inv)
        | inr src ↦ rw (t, m, visit_node, src) (Inv-node u p v s node m src inv)
      ]
    ]
  ]
