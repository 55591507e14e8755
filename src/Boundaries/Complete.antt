-- ===== src/Boundaries/Complete.antt =====
-- With a level of fuel for each node and one more the loops of `visit` end, in every manifest.
use dbtv.Common.{
  ℕ, zero, suc, ◌≤◌, String, ◌≡◌, refl, true, false, not, ◌&&◌, ◌==◌, eq_iff, List, [], ◌∷◌, Option,
  none, some, member, lookup, Bool-cases, inl, inr, arith, subst, ap, sym, ◌∙◌, Option-cases,
}
use dbtv.Models.{NormalizedNode}
use dbtv.Selection.{Nodes}
use dbtv.Boundaries.Visit.{Rules, Trail, mark, is_entered, note, walk_parents, unvisited, explore}
use dbtv.Boundaries.Visited.{
  Enters, first_node, parent_node, HasParent, Sound, Post, Post-none, Post-cons, has_note,
}
use dbtv.Boundaries.Steps.{note-visited, Post-skip, Post-unknown, Post-enter}

unvisited-le :
    (v v' : List String) (nodes : Nodes)
    → ((u : String) → member u v ≡ true → member u v' ≡ true)
    → unvisited nodes v' ≤ unvisited nodes v
unvisited-le v v' [] h = omega arith
unvisited-le v v' ((u, node) ∷ rest) h = ground (arith, h u, unvisited-le v v' rest h)

-- A node that is marked is one less.
unvisited-drop :
    (p : String) (v : List String) (nodes : Nodes) (node : NormalizedNode)
    → lookup p nodes ≡ some node
    → member p v ≡ false
    → suc (unvisited nodes (p ∷ v)) ≤ unvisited nodes v
unfolding member lookup
unvisited-drop p v [] node e h = cc
unvisited-drop p v ((u, n) ∷ rest) node e h = elim (Bool-cases (u == p)) [
  | inl y ↦ ground (
    arith,
    h,
    eq_iff u p,
    eq_iff p u,
    unvisited-le v (p ∷ v) rest (λ x m. ground (arith, m)),
    ap (λ x. member x v) ((eq_iff u p).0 y),
  )
  | inr y ↦ ground (arith, h, eq_iff u p, eq_iff p u, unvisited-drop p v rest node (rw y at e) h)
]

module _ (rules : Rules) (nodes : Nodes) (first : List String) where
  abbrev P : Option String → List String → Trail → Trail → Type 0
  P = Post rules nodes first

  walk_parents-skip :
      (fuel : ℕ) (child : Option String) (p : String) (ps : List String) (t : Trail)
      → (is_entered rules child p && not (member p t.visited)) ≡ false
      → walk_parents rules nodes (suc fuel) child (p ∷ ps) t
        ≡ walk_parents rules nodes (suc fuel) child ps (note rules child p t)
  unfolding walk_parents
  walk_parents-skip fuel child p ps t e = rw (walk_parents, e) refl

  walk_parents-unknown :
      (fuel : ℕ) (child : Option String) (p : String) (ps : List String) (t : Trail)
      → (is_entered rules child p && not (member p t.visited)) ≡ true
      → lookup p nodes ≡ none
      → walk_parents rules nodes (suc fuel) child (p ∷ ps) t
        ≡ walk_parents rules nodes (suc fuel) child ps (mark p (note rules child p t))
  unfolding walk_parents
  walk_parents-unknown fuel child p ps t e gone = rw (walk_parents, e, gone) refl

  walk_parents-enter :
      (fuel : ℕ) (child : Option String) (p : String) (ps : List String) (t middle : Trail)
      (node : NormalizedNode)
      → (is_entered rules child p && not (member p t.visited)) ≡ true
      → lookup p nodes ≡ some node
      → walk_parents rules nodes fuel (some p) node.depends_on_nodes (mark p (note rules child p t))
        ≡ some middle
      → walk_parents rules nodes (suc fuel) child (p ∷ ps) t
        ≡ walk_parents rules nodes (suc fuel) child ps middle
  unfolding walk_parents
  walk_parents-enter fuel child p ps t middle node e found eq = rw (walk_parents, e, found, eq) refl

  walk_parents_total :
      (fuel : ℕ) (child : Option String) (ps : List String) (t : Trail)
      → suc (unvisited nodes t.visited) ≤ fuel
      → (after : Trail) × (walk_parents rules nodes fuel child ps t ≡ some after)
        × P child ps t after
  unfolding walk_parents
  walk_parents_total fuel child [] t h = (t, refl, Post-none rules nodes first child t)
  walk_parents_total zero child (p ∷ ps) t h = absurd (omega arith)
  walk_parents_total (suc fuel) child (p ∷ ps) t h =
      let noted = note rules child p t in
      let same = note-visited rules nodes first child p t in
      elim (Bool-cases (is_entered rules child p && not (member p t.visited))) [
        | inr e ↦
            let (after, eq, b) = walk_parents_total (suc fuel) child ps noted (rw same h) in
            (
              after,
              walk_parents-skip fuel child p ps t e ∙ eq,
              Post-cons rules nodes first child p ps t noted after
                  (Post-skip rules nodes first child p t e) b,
            )
        | inl e ↦ elim (Option-cases (lookup p nodes)) [
          | inl gone ↦
              let one = Post-unknown rules nodes first child p t (ground (arith, e)) gone in
              let (after, eq, b) =
                walk_parents_total (suc fuel) child ps (mark p noted)
                  (omega (arith, h, unvisited-le t.visited (p ∷ noted.visited) nodes one.grows)) in
              (
                after,
                walk_parents-unknown fuel child p ps t e gone ∙ eq,
                Post-cons rules nodes first child p ps t (mark p noted) after one b,
              )
          | inr (node, found) ↦
              let (middle, eq, a) =
                walk_parents_total fuel (some p) node.depends_on_nodes (mark p noted) (
                  subst (λ v. suc (unvisited nodes (p ∷ v)) ≤ fuel) (sym same)
                    (omega (
                      arith,
                      h,
                      unvisited-drop p t.visited nodes node found (ground (arith, e)),
                    ))) in
              let one =
                Post-enter rules nodes first child p t middle node (ground (arith, e)) found a in
              let (after, eq', b) =
                walk_parents_total (suc fuel) child ps middle
                  (omega (arith, h, unvisited-le t.visited middle.visited nodes one.grows)) in
              (
                after,
                walk_parents-enter fuel child p ps t middle node e found eq ∙ eq',
                Post-cons rules nodes first child p ps t middle after one b,
              )
        ]
      ]

  abbrev start : Trail
  start = record { visited = []; noted = [] }

  Sound-start : Sound rules nodes first start
  unfolding member
  Sound-start = record { visited_entered = λ u h. cc; noted_parents = λ p u h. cc }

  -- What a whole walk leaves behind.
  pub record Explored (t : Trail) : Type 0 where
    pub sound : Sound rules nodes first t
    pub entered : (u : String) → Enters rules nodes first u → member u t.visited ≡ true
    pub parents :
        (p u : String)
        → HasParent rules nodes first u p
        → rules.notes p ≡ true
        → has_note p u t.noted ≡ true

  visited-all :
      (t : Trail)
      → P none first start t
      → (u : String) → Enters rules nodes first u
      → member u t.visited ≡ true
  unfolding member is_entered
  visited-all t b u (first_node _ h) = (b.handled u h).visited_if refl
  visited-all t b v (parent_node u _ node r found m e) =
      (b.closed u v node refl (visited-all t b u r) found m).visited_if e

  pub explore_total : (t : Trail) × (explore rules nodes first ≡ some t) × Explored t
  unfolding member
  explore_total =
      let (t, eq, b) =
        walk_parents_total (suc (unvisited nodes [])) none first start (omega arith) in
      (
        t,
        eq,
        record {
          sound = b.sound Sound-start (λ p h. first_node p h);
          entered = visited-all t b;
          parents = λ p u r e.
              (b.closed u p r.node refl (visited-all t b u r.entered) r.found r.listed).noted_if e;
        },
      )
