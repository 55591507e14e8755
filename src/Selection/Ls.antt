-- ===== src/Selection/Ls.antt =====
-- project/selection.py: `parse_dbt_ls_json`. `stripped_lines` is `splitlines` with `strip` on each line,
-- and `loads` is `json.loads`, none where it raises; the keys of an object that it returns differ.
use dbtv.Common.{
  ℕ, zero, suc, String, ◌≡◌, refl, ◌∙◌, Bool, true, false, ◌&&◌, ◌||◌, ◌==◌, List, [], ◌∷◌, Option,
  none, some, if◌then◌else◌, any_of, member, add, sorted, member-add, member-sorted, arith,
  Bool-cases, inl, inr, ap, sym,
}
use package.text.Mathlib.Text.{starts_with}
use dbtv.Errors.{Result, ok, err, dbt_invocation_error, ok_inj, err-ne-ok}
use dbtv.Json.{Json, text, object, Fields, end, field}

-- `value.get(key)`, for a text.
unfoldable pub text_at : String → Fields → Option String
text_at key end = none
text_at key (field k (text s) fs) = if k == key then some s else text_at key fs
text_at key (field k _ fs) = if k == key then none else text_at key fs

-- The id of a JSON value that is an object with a text as `unique_id`.
abbrev pub id_of : Json → Option String
id_of (object fs) = text_at "unique_id" fs
id_of _ = none

pub record Listing : Type 0 where
  pub selected : List String
  pub malformed : ℕ

abbrev pub with_id : Option String → Listing → Listing
with_id none l = l
with_id (some id) l = record l { selected = add id l.selected }

abbrev pub with_value : Option Json → Listing → Listing
with_value none l = record l { malformed = suc l.malformed }
with_value (some v) l = with_id (id_of v) l

module _ (stripped_lines : String → List String) (loads : String → Option Json) where
  abbrev pub read_line : String → Listing → Listing
  read_line candidate l = if starts_with candidate "{" then with_value (loads candidate) l else l

  unfoldable pub read_lines : List String → Listing → Listing
  unfolding text_at add
  read_lines [] l = l
  read_lines (c ∷ cs) l = read_lines cs (read_line c l)

  abbrev pub is_positive : ℕ → Bool
  is_positive zero = false
  is_positive (suc n) = true

  abbrev pub is_empty : List String → Bool
  is_empty [] = true
  is_empty (x ∷ xs) = false

  unfoldable pub parse_dbt_ls_json : String → Result (List String)
  unfolding read_lines sorted
  parse_dbt_ls_json output =
      let l = read_lines (stripped_lines output) (record { selected = []; malformed = 0 }) in
      if is_empty l.selected && is_positive l.malformed
      then err dbt_invocation_error
      else ok (sorted l.selected)

  -- A line of the output is an object with the id.
  abbrev pub carries_value : String → Option Json → Bool
  carries_value u none = false
  carries_value u (some v) = elim (id_of v) [ none ↦ false | some id ↦ id == u ]

  abbrev pub carries : String → String → Bool
  carries u candidate = starts_with candidate "{" && carries_value u (loads candidate)

  with_id-member :
      (u : String) (o : Option String) (l : Listing)
      → member u (with_id o l).selected
        ≡ (elim o [ none ↦ false | some id ↦ id == u ] || member u l.selected)
  with_id-member u none l = refl
  with_id-member u (some id) l = member-add u id l.selected

  with_value-member :
      (u : String) (o : Option Json) (l : Listing)
      → member u (with_value o l).selected ≡ (carries_value u o || member u l.selected)
  with_value-member u none l = refl
  with_value-member u (some v) l = with_id-member u (id_of v) l

  read_line-member :
      (u candidate : String) (l : Listing)
      → member u (read_line candidate l).selected ≡ (carries u candidate || member u l.selected)
  read_line-member u c l = elim (Bool-cases (starts_with c "{")) [
    | inl t ↦ rw t (with_value-member u (loads c) l)
    | inr t ↦ rw t refl
  ]

  read_lines-member :
      (u : String) (cs : List String) (l : Listing)
      → member u (read_lines cs l).selected ≡ (any_of (carries u) cs || member u l.selected)
  unfolding read_lines
  read_lines-member u [] l = refl
  read_lines-member u (c ∷ cs) l =
      ground (arith, read_lines-member u cs (read_line c l), read_line-member u c l)

  or_false : (b : Bool) → (b || false) ≡ b
  or_false true = refl
  or_false false = refl

  ok-listing :
      (b : Bool) (ids found : List String)
      → (if b then err dbt_invocation_error else ok found) ≡ ok ids
      → found ≡ ids
  ok-listing true ids found e = err-ne-ok e
  ok-listing false ids found e = ok_inj e

  -- The selection that is read from the output of `dbt ls` has an id exactly if some line of the output
  -- is an object with that id.
  pub parse_dbt_ls_json-member :
      (output : String) (ids : List String) (u : String)
      → parse_dbt_ls_json output ≡ ok ids
      → member u ids ≡ any_of (carries u) (stripped_lines output)
  unfolding parse_dbt_ls_json member
  parse_dbt_ls_json-member output ids u e =
      let l = read_lines (stripped_lines output) (record { selected = []; malformed = 0 }) in
      let same =
        ok-listing (is_empty l.selected && is_positive l.malformed) ids (sorted l.selected) e in
      ap (member u) (sym same)
      ∙ member-sorted u l.selected
      ∙ read_lines-member u (stripped_lines output) (record { selected = []; malformed = 0 })
      ∙ or_false (any_of (carries u) (stripped_lines output))
