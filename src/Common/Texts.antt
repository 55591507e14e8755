-- ===== src/Common/Texts.antt =====
-- Texts as sequences of characters: Python's slices, `split`, `replace` and `join`.
use Prim.Native.Nat.{ℕ, zero, suc}
use Prim.Native.Char.{Char, code}
use Prim.Native.String.{String, ◌++◌}
use mathlib.Core.Bool.{Bool, false, ◌||◌}
use mathlib.Core.List.{List, [], ◌∷◌}
use dbtv.Common.Tests.{if◌then◌else◌, nat_eq, ltb}

-- `text[:n]`.
unfoldable pub take_text : ℕ → String → String
take_text zero s = ""
take_text (suc n) String.[] = ""
take_text (suc n) (String.◌∷◌ c s) = String.◌∷◌ c (take_text n s)

abbrev pub extend : Char → List String → List String
extend c [] = String.◌∷◌ c "" ∷ []
extend c (part ∷ parts) = String.◌∷◌ c part ∷ parts

-- `text.split(separator)`, for a separator of one character.
unfoldable pub split_on : ℕ → String → List String
split_on separator String.[] = "" ∷ []
split_on separator (String.◌∷◌ c s) =
    let rest = split_on separator s in
    if nat_eq (code c) separator then "" ∷ rest else extend c rest

-- `text.replace(q, q + q)`, for a character `q`.
unfoldable pub doubled : ℕ → String → String
doubled q String.[] = ""
doubled q (String.◌∷◌ c s) =
    let rest = doubled q s in
    if nat_eq (code c) q then String.◌∷◌ c (String.◌∷◌ c rest) else String.◌∷◌ c rest

-- `separator.join(parts)`.
unfoldable pub join : String → List String → String
join separator [] = ""
join separator (part ∷ []) = part
join separator (part ∷ next ∷ parts) = part ++ separator ++ join separator (next ∷ parts)

-- A character below 32 stands in the text.
unfoldable pub has_control : String → Bool
has_control String.[] = false
has_control (String.◌∷◌ c s) = ltb (code c) 32 || has_control s
