-- ===== src/Boundaries/Steps.antt =====
-- What one round of the loop of `visit` leaves behind.
use dbtv.Common.{
  String, ◌≡◌, refl, true, false, not, ◌&&◌, ◌==◌, eq_iff, eq_refl, List, [], ◌∷◌, Option, none,
  some, member, lookup, Bool-cases, inl, inr, arith, Bool-absurd, subst, ap, sym, ◌∙◌, some_inj,
}
use dbtv.Models.{NormalizedNode}
use dbtv.Selection.{Nodes}
use dbtv.Boundaries.Visit.{Rules, Trail, mark, is_entered, note}
use dbtv.Boundaries.Visited.{
  has_note, Enters, parent_node, HasParent, Task, Sound, IsNoted, Handled, Handled-later, Post,
}

module _ (rules : Rules) (nodes : Nodes) (first : List String) where
  pub note-visited :
      (child : Option String) (p : String) (t : Trail) → (note rules child p t).visited ≡ t.visited
  unfolding note
  note-visited none p t = refl
  note-visited (some child) p t = ground arith

  note-keeps :
      (child : Option String) (p : String) (t : Trail) (q u : String)
      → has_note q u t.noted ≡ true
      → has_note q u (note rules child p t).noted ≡ true
  unfolding note
  note-keeps none p t q u h = h
  note-keeps (some child) p t q u h = elim (Bool-cases (rules.notes p)) [
    | inl e ↦ rw e (ground (arith, h))
    | inr e ↦ rw e h
  ]

  note-IsNoted :
      (child : Option String) (p : String) (t : Trail)
      → IsNoted rules nodes first child p (note rules child p t)
  unfolding note
  note-IsNoted none p t = tt
  note-IsNoted (some child) p t = λ e. rw (e, eq_refl p, eq_refl child) refl

  note-IsNoted-mark :
      (child : Option String) (p : String) (t : Trail)
      → IsNoted rules nodes first child p (mark p (note rules child p t))
  note-IsNoted-mark none p t = tt
  note-IsNoted-mark (some child) p t = note-IsNoted (some child) p t

  note-Sound :
      (child : Option String) (p : String) (t : Trail)
      → Sound rules nodes first t
      → Task rules nodes first child p
      → Sound rules nodes first (note rules child p t)
  unfolding note
  note-Sound none p t s task = s
  note-Sound (some child) p t s task = elim (Bool-cases (rules.notes p)) [
    | inr e ↦ rw e s
    | inl e ↦ rw e (record {
      visited_entered = s.visited_entered;
      noted_parents = λ q u h. elim (Bool-cases (p == q && child == u)) [
        | inr n ↦ s.noted_parents q u (rw n at h)
        | inl y ↦
            subst (λ a. HasParent rules nodes first u a × (rules.notes a ≡ true))
              ((eq_iff p q).0 (ground (arith, y)))
              (
                subst (λ b. HasParent rules nodes first b p)
                    ((eq_iff child u).0 (ground (arith, y))) task,
                e,
              )
      ];
    })
  ]

  Task-Enters :
      (child : Option String) (p : String)
      → Task rules nodes first child p
      → is_entered rules child p ≡ true
      → Enters rules nodes first p
  unfolding is_entered
  Task-Enters none p task e = task
  Task-Enters (some child) p task e =
      parent_node child p task.node task.entered task.found task.listed e

  mark-Sound :
      (p : String) (t : Trail)
      → Enters rules nodes first p
      → Sound rules nodes first t
      → Sound rules nodes first (mark p t)
  unfolding member
  mark-Sound p t r s = record {
    visited_entered = λ u h. elim (Bool-cases (p == u)) [
      | inl e ↦ subst (Enters rules nodes first) ((eq_iff p u).0 e) r
      | inr e ↦ s.visited_entered u (rw e at h)
    ];
    noted_parents = s.noted_parents;
  }

  only : (p q : String) → member q (p ∷ []) ≡ true → p ≡ q
  unfolding member
  only p q h = (eq_iff p q).0 (ground (arith, h))

  abbrev noted : Option String → String → Trail → Trail
  noted child p t = note rules child p t

  abbrev HandledAt : Option String → String → Trail → Type 0
  HandledAt child p t = Handled rules nodes first child p t

  -- The parent is not entered, or was visited before.
  pub Post-skip :
      (child : Option String) (p : String) (t : Trail)
      → (is_entered rules child p && not (member p t.visited)) ≡ false
      → Post rules nodes first child (p ∷ []) t (note rules child p t)
  unfolding member
  Post-skip child p t h = record {
    grows = λ u m. subst (λ v. member u v ≡ true) (sym (note-visited child p t)) m;
    kept = note-keeps child p t;
    closed = λ u q node n m e l.
        Bool-absurd (member u t.visited) (subst (λ v. member u v ≡ true) (note-visited child p t) m)
          n;
    handled = λ q m.
        subst (λ x. HandledAt child x (noted child p t)) (only p q m)
          (record {
            visited_if = λ e.
                subst (λ v. member p v ≡ true) (sym (note-visited child p t))
                  (ground (arith, e, h));
            noted_if = note-IsNoted child p t;
          });
    sound = λ s task. note-Sound child p t s (task p (rw (eq_refl p) refl));
  }

  -- The parent is entered, and the manifest does not have it.
  pub Post-unknown :
      (child : Option String) (p : String) (t : Trail)
      → is_entered rules child p ≡ true
      → lookup p nodes ≡ none
      → Post rules nodes first child (p ∷ []) t (mark p (note rules child p t))
  unfolding member
  Post-unknown child p t h gone = record {
    grows = λ u m. rw (note-visited child p t) (ground (arith, m));
    kept = note-keeps child p t;
    closed = λ u q node n m e l. elim (Bool-cases (p == u)) [
      | inl y ↦ cc (gone, e, (eq_iff p u).0 y)
      | inr y ↦ Bool-absurd (member u t.visited) (rw (y, note-visited child p t) at m) n
    ];
    handled = λ q m.
        subst (λ x. HandledAt child x (mark p (noted child p t))) (only p q m)
          (record {
            visited_if = λ e. rw (eq_refl p) refl;
            noted_if = note-IsNoted-mark child p t;
          });
    sound = λ s task.
        let here = task p (rw (eq_refl p) refl) in
        mark-Sound p (noted child p t) (Task-Enters child p here h) (note-Sound child p t s here);
  }

  -- The parent is entered, and its own parents have been gone over.
  pub Post-enter :
      (child : Option String) (p : String) (t after : Trail) (node : NormalizedNode)
      → is_entered rules child p ≡ true
      → lookup p nodes ≡ some node
      → Post rules nodes first (some p) node.depends_on_nodes (mark p (note rules child p t)) after
      → Post rules nodes first child (p ∷ []) t after
  unfolding member
  Post-enter child p t after node h found b = record {
    grows = λ u m. b.grows u (rw (note-visited child p t) (ground (arith, m)));
    kept = λ q u m. b.kept q u (note-keeps child p t q u m);
    closed = λ u q node' n m e l. elim (Bool-cases (p == u)) [
      | inl y ↦
          subst (λ x. HandledAt (some x) q after) ((eq_iff p u).0 y)
            (b.handled q (
              subst (λ (k : NormalizedNode). member q k.depends_on_nodes ≡ true)
                (some_inj (sym e ∙ ap (λ x. lookup x nodes) (sym ((eq_iff p u).0 y)) ∙ found)) l))
      | inr y ↦ b.closed u q node' (rw (y, note-visited child p t) n) m e l
    ];
    handled = λ q m.
        subst (λ x. HandledAt child x after) (only p q m)
          (Handled-later rules nodes first child p (mark p (noted child p t)) after b.grows b.kept
            (record {
              visited_if = λ e. rw (eq_refl p) refl;
              noted_if = note-IsNoted-mark child p t;
            }));
    sound = λ s task.
        let here = task p (rw (eq_refl p) refl) in
        let enters = Task-Enters child p here h in
        b.sound (mark-Sound p (noted child p t) enters (note-Sound child p t s here))
          (λ q m. record { entered = enters; node = node; found = found; listed = m });
  }
