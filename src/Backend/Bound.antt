-- ===== src/Backend/Bound.antt =====
-- What `bind` and `verify` have done when they return.
use dbtv.Common.{String, ◌≡◌, true, List, [], ◌∷◌, All}
use dbtv.Errors.{ok}
use Prim.Native.String.{◌++◌ as ◌+++◌}
use dbtv.Models.{Relation, SourceBinding}
use dbtv.Backend.Statements.{IsSchema, IsView}
use dbtv.Models.Runs.{BindingResult}
use dbtv.Backend.Bind.{Log, file_paths, Duck, other_catalog, path_for, rendered, selects}

-- The names by which the statements of a binding are read.
abbrev relation_of : SourceBinding → Relation
relation_of b = b.mapping.local_relation

abbrev pub place_of : Duck → String → SourceBinding → String
place_of duck main b = path_for duck (other_catalog duck main (relation_of b).catalog)

-- For each binding in order two statements were executed in the database of its catalog: one that SQL reads as
-- making its schema, and one that it reads as making a view of its name, in that schema, over its files.
abbrev pub HaveViews : Duck → String → List SourceBinding → Log → Log → Type 0
HaveViews duck main [] log log' = log' ≡ log
HaveViews duck main (b ∷ bs) log log' =
    (first : String) × (second : String) × IsSchema (relation_of b).schema first
    × IsView (relation_of b).schema (relation_of b).identifier (file_paths duck b) second
    × HaveViews duck main bs ((place_of duck main b, second) ∷ (place_of duck main b, first) ∷ log)
        log'

-- A verified result for each binding, in order, whose relation can be read after the given statements.
pub record IsBound (duck : Duck) (log : Log) (b : SourceBinding) (r : BindingResult) : Type 0 where
  pub source : r.source_unique_id ≡ b.mapping.source.unique_id
  pub verified : r.verified ≡ true
  pub name : String
  pub named : rendered b.mapping.local_relation ≡ ok name
  pub answers : selects duck log name ≡ true

abbrev pub AreBound : Duck → Log → List SourceBinding → List BindingResult → Type 0
AreBound duck log [] [] = Unit
AreBound duck log [] (r ∷ rs) = ⊥
AreBound duck log (b ∷ bs) [] = ⊥
AreBound duck log (b ∷ bs) (r ∷ rs) = IsBound duck log b r × AreBound duck log bs rs

-- The statements that one binding is made by.
record MadeBy (duck : Duck) (path : String) (b : SourceBinding) (log log' : Log) : Type 0 where
  first : String
  second : String
  is_schema : IsSchema (relation_of b).schema first
  is_view : IsView (relation_of b).schema (relation_of b).identifier (file_paths duck b) second
  log_is : log' ≡ (path, second) ∷ (path, first) ∷ log

abbrev AreKeyed : List (String × BindingResult) → Type 0
AreKeyed found = All (λ (e : String × BindingResult). e.1.source_unique_id ≡ e.0) found
