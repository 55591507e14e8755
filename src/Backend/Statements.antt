-- ===== src/Backend/Statements.antt =====
-- How SQL reads the statements that `bind` makes: a reader of quoted names and texts, independent of the
-- code that quotes them, and what it reads in the statements of a schema and of a view.
use Prim.Native.Char.{Char, code}
use Prim.Native.String.{◌++◌}
use package.text.Mathlib.TextLemmas.{nil-append, cons-append, append-nil, append_assoc}
use dbtv.Common.{
  ℕ, String, ◌≡◌, refl, Bool, true, false, ◌==◌, eq_refl, List, [], ◌∷◌, map, Option, none, some,
  if◌then◌else◌, nat_eq, doubled, inl, inr, Bool-cases, arith, join, subst, ap,
}
use dbtv.Errors.{ok, >>=-eq-ok, ok_inj, require, binding_error}
use dbtv.Backend.Quote.{quote_duckdb_identifier, quote_duckdb_string}
use dbtv.Backend.Bind.{view_statement}

abbrev prepend : Char → Option (String × String) → Option (String × String)
prepend c none = none
prepend c (some (name, rest)) = some (String.◌∷◌ c name, rest)

-- What is quoted, up to the quote that ends it, and the rest.
abbrev pub read_until : ℕ → Bool → String → Option (String × String)
read_until q false String.[] = none
read_until q true String.[] = some ("", "")
read_until q false (String.◌∷◌ c s) =
    let inside = read_until q false s in
    let after = read_until q true s in if nat_eq (code c) q then after else prepend c inside
read_until q true (String.◌∷◌ c s) =
    let inside = read_until q false s in
    if nat_eq (code c) q then prepend c inside else some ("", String.◌∷◌ c s)

abbrev pub named : String → Option (String × String) → Option String
named name none = none
named name (some (read, rest)) = if read == name then some rest else none

-- The rest of the text, after the given name in quotes.
unfoldable pub expect : ℕ → String → String → Option String
expect q name String.[] = none
expect q name (String.◌∷◌ c s) =
    if nat_eq (code c) q then named name (read_until q false s) else none

-- The rest of the text, after the given words.
unfoldable pub strip : String → String → Option String
strip String.[] s = some s
strip (String.◌∷◌ c p) String.[] = none
strip (String.◌∷◌ c p) (String.◌∷◌ d s) =
    let rest = strip p s in if nat_eq (code c) (code d) then rest else none

infixl 5 ◌⟫◌
abbrev pub ◌⟫◌ : Option String → (String → Option String) → Option String
none ⟫ next = none
some s ⟫ next = next s

unfoldable pub expect_all : List String → String → Option String
expect_all [] s = some s
expect_all (f ∷ fs) s = elim fs [
  | [] ↦ expect 39 f s
  | g ∷ gs ↦ expect 39 f s ⟫ strip ", " ⟫ expect_all fs
]

-- The statement makes sure of the schema.
abbrev pub IsSchema : String → String → Type 0
IsSchema schema statement =
    (strip "CREATE SCHEMA IF NOT EXISTS " statement ⟫ expect 34 schema) ≡ some ""

-- The statement makes the view in the schema, over the files.
abbrev pub IsView : String → String → List String → String → Type 0
IsView schema identifier files statement =
    (strip "CREATE OR REPLACE VIEW " statement
      ⟫ expect 34 schema
      ⟫ strip "."
      ⟫ expect 34 identifier
      ⟫ strip " AS SELECT * FROM read_parquet(["
      ⟫ expect_all files
      ⟫ strip "], union_by_name=true)")
    ≡ some ""

strip-append : (p s : String) → strip p (p ++ s) ≡ some s
unfolding strip
strip-append String.[] s = ap some (nil-append s)
strip-append (String.◌∷◌ c p) s = rw (cons-append c p s, strip-append p s) (ground arith)

abbrev is_start : ℕ → String → Bool
is_start q String.[] = false
is_start q (String.◌∷◌ c s) = nat_eq (code c) q

is_start-append :
    (q : ℕ) (c : Char) (p rest : String) → is_start q (String.◌∷◌ c p ++ rest) ≡ nat_eq (code c) q
is_start-append q c p rest = rw (cons-append c p rest) refl

read_until-end :
    (q : ℕ) (rest : String) → is_start q rest ≡ false → read_until q true rest ≡ some ("", rest)
read_until-end q String.[] h = refl
read_until-end q (String.◌∷◌ c s) h = rw h refl

read_until-doubled :
    (q : ℕ) (m : Char) (rest s : String)
    → nat_eq (code m) q ≡ true
    → is_start q rest ≡ false
    → read_until q false (doubled q s ++ String.◌∷◌ m rest) ≡ some (s, rest)
unfolding doubled
read_until-doubled q m rest String.[] e h =
    rw (nil-append (String.◌∷◌ m rest), e) (read_until-end q rest h)
read_until-doubled q m rest (String.◌∷◌ c s) e h = elim (Bool-cases (nat_eq (code c) q)) [
  | inl y ↦
      rw
        (
          y,
          cons-append c (String.◌∷◌ c (doubled q s)) (String.◌∷◌ m rest),
          cons-append c (doubled q s) (String.◌∷◌ m rest),
          y,
          read_until-doubled q m rest s e h,
        )
        refl
  | inr y ↦
      rw (y, cons-append c (doubled q s) (String.◌∷◌ m rest), y, read_until-doubled q m rest s e h)
        refl
]

expect-doubled :
    (q : ℕ) (m : Char) (name rest : String)
    → nat_eq (code m) q ≡ true
    → is_start q rest ≡ false
    → expect q name ((String.◌∷◌ m "" ++ (doubled q name ++ String.◌∷◌ m "")) ++ rest) ≡ some rest
unfolding expect
expect-doubled q m name rest e h =
    rw
      (
        cons-append m "" (doubled q name ++ String.◌∷◌ m ""),
        nil-append (doubled q name ++ String.◌∷◌ m ""),
        cons-append m (doubled q name ++ String.◌∷◌ m "") rest,
        append_assoc (doubled q name) (String.◌∷◌ m "") rest,
        cons-append m "" rest,
        nil-append rest,
        e,
        read_until-doubled q m rest name e h,
        eq_refl name,
      )
      refl

pub expect-identifier :
    (name quoted rest : String)
    → is_start 34 rest ≡ false
    → quote_duckdb_identifier name ≡ ok quoted
    → expect 34 name (quoted ++ rest) ≡ some rest
unfolding quote_duckdb_identifier
expect-identifier name quoted rest h e =
    let (_, _, same) =
      >>=-eq-ok (require _ binding_error) (λ _. ok ("\"" ++ (doubled 34 name ++ "\""))) e in
    subst (λ s. expect 34 name (s ++ rest) ≡ some rest) (ok_inj same)
      (expect-doubled 34 "\"" name rest refl h)

expect-text :
    (text rest : String)
    → is_start 39 rest ≡ false
    → expect 39 text (quote_duckdb_string text ++ rest) ≡ some rest
unfolding quote_duckdb_string
expect-text text rest h = expect-doubled 39 "'" text rest refl h

expect_all-join :
    (files : List String) (rest : String)
    → is_start 39 rest ≡ false
    → expect_all files (join ", " (map quote_duckdb_string files) ++ rest) ≡ some rest
unfolding expect_all join
expect_all-join [] rest h = ap some (nil-append rest)
expect_all-join (f ∷ []) rest h = expect-text f rest h
expect_all-join (f ∷ g ∷ fs) rest h =
    let later = join ", " (map quote_duckdb_string (g ∷ fs)) in
    rw
      (
        append_assoc (quote_duckdb_string f) (", " ++ later) rest,
        append_assoc ", " later rest,
        expect-text f (", " ++ (later ++ rest)) (is_start-append 39 "," " " (later ++ rest)),
        strip-append ", " (later ++ rest),
      )
      (expect_all-join (g ∷ fs) rest h)

-- The statement for a schema reads as that.
pub IsSchema-reads :
    (schema quoted : String)
    → quote_duckdb_identifier schema ≡ ok quoted
    → IsSchema schema ("CREATE SCHEMA IF NOT EXISTS " ++ quoted)
IsSchema-reads schema quoted e = rw (strip-append "CREATE SCHEMA IF NOT EXISTS " quoted) (
    subst (λ s. expect 34 schema s ≡ some "") (append-nil quoted)
      (expect-identifier schema quoted "" refl e))

-- The statement for a view reads as that.
pub IsView-reads :
    (schema identifier s i : String) (files : List String)
    → quote_duckdb_identifier schema ≡ ok s
    → quote_duckdb_identifier identifier ≡ ok i
    → IsView schema identifier files (view_statement s i (map quote_duckdb_string files))
unfolding strip
IsView-reads schema identifier s i files es ei =
    let list = join ", " (map quote_duckdb_string files) ++ "], union_by_name=true)" in
    let select = " AS SELECT * FROM read_parquet([" ++ list in
    rw
      (
        strip-append "CREATE OR REPLACE VIEW " (s ++ ("." ++ (i ++ select))),
        expect-identifier schema s ("." ++ (i ++ select)) (is_start-append 34 "." "" (i ++ select))
            es,
        strip-append "." (i ++ select),
        expect-identifier identifier i select
            (is_start-append 34 " " "AS SELECT * FROM read_parquet([" list) ei,
        strip-append " AS SELECT * FROM read_parquet([" list,
        expect_all-join files "], union_by_name=true)" refl,
      )
      refl
