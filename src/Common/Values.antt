-- ===== src/Common/Values.antt =====
-- Predicates on the values of a dictionary.
use Prim.Native.String.{String}
use mathlib.Core.Path.{◌≡◌, subst}
use mathlib.Core.Logic.{inl, inr}
use mathlib.Core.Option.{some}
use mathlib.Core.List.{List, [], ◌∷◌}
use text.Mathlib.Text.{◌==◌}
use dbtv.Common.Tests.{Bool-cases, some_inj}
use dbtv.Common.Keys.{lookup, insert}
use dbtv.Common.Pairs.{All}

module _ {ℓ κ} {V : Type ℓ} (P : V → Type κ) where
  abbrev pub AllValues : List (String × V) → Type κ
  AllValues d = All (λ (e : String × V). P e.1) d

  pub AllValues-insert :
      (k : String) (v : V) (d : List (String × V)) → P v → AllValues d → AllValues (insert k v d)
  unfolding insert
  AllValues-insert k v [] p h = (p, tt)
  AllValues-insert k v ((j, w) ∷ d) p h = elim (Bool-cases (j == k)) [
    | inl e ↦ rw e (p, h.1)
    | inr e ↦ rw e (h.0, AllValues-insert k v d p h.1)
  ]

  pub AllValues-lookup :
      (k : String) (d : List (String × V)) {v : V} → AllValues d → lookup k d ≡ some v → P v
  unfolding lookup
  AllValues-lookup k [] h e = cc
  AllValues-lookup k ((j, w) ∷ d) h e = elim (Bool-cases (j == k)) [
    | inl t ↦ subst P (some_inj (rw t at e)) h.0
    | inr t ↦ AllValues-lookup k d h.1 (rw t at e)
  ]
