-- ===== src/Backend/Quote.antt =====
-- backend/duckdb.py: quoting. `read_quoted` is how SQL reads a quoted identifier or text.
use Prim.Native.Char.{Char, code}
use dbtv.Common.{
  ℕ, String, ◌≡◌, refl, Bool, true, false, not, ◌&&◌, ◌==◌, Option, none, some, if◌then◌else◌,
  nat_eq, doubled, has_control, inl, inr, Bool-cases, subst,
}
use Prim.Native.String.{◌++◌}
use package.text.Mathlib.TextLemmas.{nil-append, cons-append}
use dbtv.Errors.{Result, ok, binding_error, require, ◌>>◌, >>=-eq-ok, ok_inj}

unfoldable pub quote_duckdb_identifier : String → Result String
unfolding has_control
quote_duckdb_identifier name =
    require (not (name == "") && not (has_control name)) binding_error
    >> ok ("\"" ++ (doubled 34 name ++ "\""))

unfoldable pub quote_duckdb_string : String → String
quote_duckdb_string text = "'" ++ (doubled 39 text ++ "'")

abbrev pub with_char : Char → Option String → Option String
with_char c none = none
with_char c (some s) = some (String.◌∷◌ c s)

-- The rest of a quoted text, where the flag says that a quote has just been read.
abbrev pub read_rest : ℕ → Bool → String → Option String
read_rest q false String.[] = none
read_rest q true String.[] = some ""
read_rest q false (String.◌∷◌ c s) =
    let inside = read_rest q false s in
    let after = read_rest q true s in if nat_eq (code c) q then after else with_char c inside
read_rest q true (String.◌∷◌ c s) =
    let inside = read_rest q false s in if nat_eq (code c) q then with_char c inside else none

abbrev pub read_quoted : ℕ → String → Option String
read_quoted q String.[] = none
read_quoted q (String.◌∷◌ c s) =
    let rest = read_rest q false s in if nat_eq (code c) q then rest else none

read_rest-doubled :
    (q : ℕ) (mark : String) (s : String)
    → read_rest q false mark ≡ some ""
    → read_rest q false (doubled q s ++ mark) ≡ some s
unfolding doubled
read_rest-doubled q mark String.[] m = rw (nil-append mark) m
read_rest-doubled q mark (String.◌∷◌ c s) m = elim (Bool-cases (nat_eq (code c) q)) [
  | inl e ↦
      rw
        (
          e,
          cons-append c (String.◌∷◌ c (doubled q s)) mark,
          cons-append c (doubled q s) mark,
          e,
          read_rest-doubled q mark s m,
        )
        refl
  | inr e ↦ rw (e, cons-append c (doubled q s) mark, e, read_rest-doubled q mark s m) refl
]

read_quoted-doubled :
    (q : ℕ) (c : Char) (s : String)
    → nat_eq (code c) q ≡ true
    → read_quoted q (String.◌∷◌ c "" ++ (doubled q s ++ String.◌∷◌ c "")) ≡ some s
read_quoted-doubled q c s e =
    rw
      (
        cons-append c "" (doubled q s ++ String.◌∷◌ c ""),
        nil-append (doubled q s ++ String.◌∷◌ c ""),
        e,
      )
      (read_rest-doubled q (String.◌∷◌ c "") s (rw e refl))

-- SQL reads a quoted identifier as the name, and a quoted text as the text.
pub quoted-reads :
    (name quoted text : String)
    → quote_duckdb_identifier name ≡ ok quoted
    → (read_quoted 34 quoted ≡ some name) × (read_quoted 39 (quote_duckdb_string text) ≡ some text)
unfolding quote_duckdb_identifier quote_duckdb_string
quoted-reads name quoted text h =
    let (_, _, same) =
      >>=-eq-ok (require (not (name == "") && not (has_control name)) binding_error)
        (λ _. ok ("\"" ++ (doubled 34 name ++ "\""))) h in
    (
      subst (λ s. read_quoted 34 s ≡ some name) (ok_inj same)
          (read_quoted-doubled 34 "\"" name refl),
      read_quoted-doubled 39 "'" text refl,
    )
