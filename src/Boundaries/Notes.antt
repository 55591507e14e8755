-- ===== src/Boundaries/Notes.antt =====
-- The pairs that a walk wrote down, as Python's lists and dictionaries.
use dbtv.Common.{
  String, ◌≡◌, refl, true, ◌||◌, ◌==◌, eq_iff, List, [], ◌∷◌, some, member, member-add, lookup, add,
  Bool-cases, inl, inr, arith,
}
use dbtv.Boundaries.Visited.{has_note}

-- The keys of the dictionary that the pairs were written to, without an order.
unfoldable pub written_keys : List (String × String) → List String
written_keys [] = []
written_keys ((p, child) ∷ noted) = add p (written_keys noted)

-- The pairs in the order in which they were written.
unfoldable pub in_written_order :
    List (String × String) → List (String × String) → List (String × String)
in_written_order done [] = done
in_written_order done (pair ∷ noted) = in_written_order (pair ∷ done) noted

pub in_written_order-note :
    (p child : String) (done noted : List (String × String))
    → has_note p child (in_written_order done noted)
      ≡ (has_note p child done || has_note p child noted)
unfolding in_written_order
in_written_order-note p child done [] = ground arith
in_written_order-note p child done ((a, b) ∷ noted) =
    ground (arith, in_written_order-note p child ((a, b) ∷ done) noted)

pub note-written_keys :
    (p child : String) (noted : List (String × String))
    → has_note p child noted ≡ true
    → member p (written_keys noted) ≡ true
unfolding written_keys
note-written_keys p child [] h = absurd (ground (arith, h))
note-written_keys p child ((a, b) ∷ noted) h =
    ground (arith, member-add p a (written_keys noted), note-written_keys p child noted)

-- The value that the dictionary has for a key is one that was written.
pub lookup-note :
    (p child : String) (noted : List (String × String))
    → lookup p noted ≡ some child
    → has_note p child noted ≡ true
unfolding lookup
lookup-note p child [] h = cc
lookup-note p child ((a, b) ∷ noted) h =
    ground (arith, h, lookup-note p child noted, eq_iff b child)

pub written_keys-lookup :
    (p : String) (noted : List (String × String))
    → member p (written_keys noted) ≡ true
    → (child : String) × (lookup p noted ≡ some child)
unfolding written_keys lookup member
written_keys-lookup p [] h = cc
written_keys-lookup p ((a, b) ∷ noted) h = elim (Bool-cases (a == p)) [
  | inl e ↦ rw e (b, refl)
  | inr e ↦
      rw e (written_keys-lookup p noted (ground (arith, h, e, member-add p a (written_keys noted))))
]
