-- ===== src/Boundaries/Visited.antt =====
-- What a loop of `visit` leaves behind.
use dbtv.Common.{
  String, ◌≡◌, refl, Bool, true, false, ◌&&◌, ◌==◌, List, [], ◌∷◌, Option, none, some, any_of,
  member, lookup, Bool-cases, inl, inr, arith, Bool-absurd,
}
use dbtv.Models.{NormalizedNode}
use dbtv.Selection.{Nodes}
use dbtv.Boundaries.Visit.{Rules, Trail, is_entered}

abbrev pub has_note : String → String → List (String × String) → Bool
has_note p child xs = any_of (λ (a, b). a == p && b == child) xs

module _ (rules : Rules) (nodes : Nodes) (first : List String) where
  -- A node that the first nodes lead to by parents that are entered.
  pub data Enters : String → Type 0 where
    first_node : (u : String) → member u first ≡ true → Enters u
    parent_node :
        (u v : String) (node : NormalizedNode)
        → Enters u
        → lookup u nodes ≡ some node
        → member v node.depends_on_nodes ≡ true
        → rules.enters v ≡ true
        → Enters v

  -- The node is entered and has the parent.
  pub record HasParent (u v : String) : Type 0 where
    pub entered : Enters u
    pub node : NormalizedNode
    pub found : lookup u nodes ≡ some node
    pub listed : member v node.depends_on_nodes ≡ true

  -- What has to hold of what a loop goes over.
  abbrev pub Task : Option String → String → Type 0
  Task none p = Enters p
  Task (some child) p = HasParent child p

  pub record Sound (t : Trail) : Type 0 where
    pub visited_entered : (u : String) → member u t.visited ≡ true → Enters u
    pub noted_parents :
        (p u : String) → has_note p u t.noted ≡ true → HasParent u p × (rules.notes p ≡ true)

  abbrev pub IsNoted : Option String → String → Trail → Type 0
  IsNoted none p t = Unit {0}
  IsNoted (some child) p t = rules.notes p ≡ true → has_note p child t.noted ≡ true

  -- The parent has been written down and entered, as the rules say.
  pub record Handled (child : Option String) (p : String) (t : Trail) : Type 0 where
    pub visited_if : is_entered rules child p ≡ true → member p t.visited ≡ true
    pub noted_if : IsNoted child p t

  -- From one trail to a later one, by a loop over the parents `ps`.
  pub record Post (child : Option String) (ps : List String) (t t' : Trail) : Type 0 where
    pub grows : (u : String) → member u t.visited ≡ true → member u t'.visited ≡ true
    pub kept : (p u : String) → has_note p u t.noted ≡ true → has_note p u t'.noted ≡ true
    pub closed :
        (u p : String) (node : NormalizedNode)
        → member u t.visited ≡ false
        → member u t'.visited ≡ true
        → lookup u nodes ≡ some node
        → member p node.depends_on_nodes ≡ true
        → Handled (some u) p t'
    pub handled : (p : String) → member p ps ≡ true → Handled child p t'
    pub sound : Sound t → ((p : String) → member p ps ≡ true → Task child p) → Sound t'

  pub Handled-later :
      (child : Option String) (p : String) (t t' : Trail)
      → ((u : String) → member u t.visited ≡ true → member u t'.visited ≡ true)
      → ((p u : String) → has_note p u t.noted ≡ true → has_note p u t'.noted ≡ true)
      → Handled child p t
      → Handled child p t'
  Handled-later none p t t' grows kept h = record {
    visited_if = λ e. grows p (h.visited_if e);
    noted_if = tt;
  }
  Handled-later (some child) p t t' grows kept h = record {
    visited_if = λ e. grows p (h.visited_if e);
    noted_if = λ e. kept p child (h.noted_if e);
  }

  pub Post-none : (child : Option String) (t : Trail) → Post child [] t t
  unfolding member
  Post-none child t = record {
    grows = λ u h. h;
    kept = λ p u h. h;
    closed = λ u p node a b e h. Bool-absurd (member u t.visited) b a;
    handled = λ p h. cc;
    sound = λ s h. s;
  }

  pub Post-cons :
      (child : Option String) (p : String) (ps : List String) (t t1 t2 : Trail)
      → Post child (p ∷ []) t t1
      → Post child ps t1 t2
      → Post child (p ∷ ps) t t2
  unfolding member
  Post-cons child p ps t t1 t2 a b = record {
    grows = λ u h. b.grows u (a.grows u h);
    kept = λ q u h. b.kept q u (a.kept q u h);
    closed = λ u q node n m e h. elim (Bool-cases (member u t1.visited)) [
      | inl i ↦ Handled-later (some u) q t1 t2 b.grows b.kept (a.closed u q node n i e h)
      | inr i ↦ b.closed u q node i m e h
    ];
    handled = λ q h. elim (Bool-cases (p == q)) [
      | inl i ↦ Handled-later child q t1 t2 b.grows b.kept (a.handled q (rw i refl))
      | inr i ↦ b.handled q (rw i at h)
    ];
    sound = λ s h. b.sound (a.sound s (λ q i. h q (ground arith))) (λ q i. h q (ground arith));
  }
