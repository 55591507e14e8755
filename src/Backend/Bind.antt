-- ===== src/Backend/Bind.antt =====
-- backend/duckdb.py: `bind` and `verify`. `Duck` holds what DuckDB and `pathlib` answer. What a statement
-- does depends on the statements that were executed before, which the model keeps in a list, each with the
-- file of its database, the latest first. The writer's lock and the installation of the compatibility macros
-- are left out; connecting and writing a file fail with errors that are not the program's own.
use dbtv.Common.{
  String, Bool, true, false, not, ◌==◌, List, [], ◌∷◌, map, Option, none, some, if◌then◌else◌,
  lookup, insert, join,
}
use Prim.Native.String.{◌++◌ as ◌+++◌}
use dbtv.Errors.{Result, ok, err, binding_error, internal_error, require, ◌>>=◌, ◌>>◌}
use dbtv.Errors.Calls.{continue}
use dbtv.Models.{Relation, SourceBinding}
use dbtv.Models.Runs.{BindingResult, BindingReport, display_name}
use dbtv.Backend.Quote.{quote_duckdb_identifier, quote_duckdb_string}

-- The statements that were executed, and where.
abbrev pub Log : Type 0
Log = List (String × String)

pub record Duck : Type 0 where
  -- What was executed before the run.
  pub history : Log
  -- The name of the main catalog, or what opening the database raises.
  pub main_catalog : Result String
  pub connects : String → Bool
  -- Whether a statement succeeds after the given ones; one that raises changes nothing.
  pub execute : Log → String → String → Bool
  -- Whether `catalog-map.json` is written.
  pub writes_map : Bool
  pub casefold : String → String
  pub database : String
  pub catalog_file : String → String
  pub resolve : String → String
  pub join_path : String → String → String

-- A catalog that is given and is not the main one.
abbrev pub other_catalog : Duck → String → Option String → Option String
other_catalog duck main none = none
other_catalog duck main (some c) =
    if c == "" then none else if duck.casefold c == duck.casefold main then none else some c

abbrev pub path_for : Duck → Option String → String
path_for duck none = duck.database
path_for duck (some c) = duck.catalog_file c

abbrev pub attach : Duck → Option String → List (String × String) → List (String × String)
attach duck none attachments = attachments
attach duck (some c) attachments = insert c (duck.catalog_file c) attachments

abbrev pub file_paths : Duck → SourceBinding → List String
file_paths duck b =
    map (λ file. duck.resolve (duck.join_path b.snapshot.root file.path)) b.snapshot.files

abbrev pub file_literals : Duck → SourceBinding → List String
file_literals duck b = map quote_duckdb_string (file_paths duck b)

abbrev pub no_files : List String → Bool
no_files [] = true
no_files _ = false

abbrev pub view_statement : String → String → List String → String
view_statement schema identifier paths =
    "CREATE OR REPLACE VIEW "
    +++ schema
    +++ "."
    +++ identifier
    +++ " AS SELECT * FROM read_parquet(["
    +++ join ", " paths
    +++ "], union_by_name=true)"

-- `connection.execute`, in the `try` block.
abbrev pub perform : Duck → String → String → Log → Result (Unit {0}) × Log
perform duck path statement log =
    if duck.execute log path statement
    then (ok tt, (path, statement) ∷ log)
    else (err binding_error, log)

-- The body of the `try` block.
unfoldable pub create_view : Duck → String → SourceBinding → Log → Result (Unit {0}) × Log
unfolding quote_duckdb_identifier quote_duckdb_string
create_view duck path b log =
    continue (quote_duckdb_identifier b.mapping.local_relation.schema, log)
      (λ schema l1.
        continue (quote_duckdb_identifier b.mapping.local_relation.identifier, l1)
          (λ identifier l2.
            continue (perform duck path ("CREATE SCHEMA IF NOT EXISTS " +++ schema) l2) (λ _ l3.
              continue (require (not (no_files (file_literals duck b))) binding_error, l3)
                (λ _ l4.
                  perform duck path (view_statement schema identifier (file_literals duck b)) l4))))

abbrev pub unverified : SourceBinding → String → BindingResult
unverified b path = record {
  source_unique_id = b.mapping.source.unique_id;
  relation = display_name b.mapping.local_relation;
  catalog_path = path;
  verified = false;
  row_count = some b.snapshot.row_count;
}

-- One round of the loop of `bind`, before what the rest of the loop adds.
unfoldable pub bind_source :
    Duck
    → String
    → SourceBinding
    → List (String × String)
    → Log
    → Result (BindingResult × List (String × String)) × Log
unfolding create_view
bind_source duck main b attachments log =
    let catalog = other_catalog duck main b.mapping.local_relation.catalog in
    let path = path_for duck catalog in
    continue (require (duck.connects path) internal_error, log)
      (λ _ l.
        continue (create_view duck path b l)
          (λ _ l'. (ok (unverified b path, attach duck catalog attachments), l')))

unfoldable pub bind_sources :
    Duck → String → List SourceBinding → List (String × String) → Log → Result BindingReport × Log
unfolding bind_source
bind_sources duck main [] attachments log =
    (ok (record { results = []; attachments = attachments }), log)
bind_sources duck main (b ∷ bs) attachments log =
    continue (bind_source duck main b attachments log) (λ one l.
      continue (bind_sources duck main bs one.1 l)
        (λ report l'. (ok (record report { results = one.0 ∷ report.results }), l')))

unfoldable pub bind : Duck → List SourceBinding → Result BindingReport × Log
unfolding bind_sources
bind duck bindings =
    continue (duck.main_catalog, duck.history)
      (λ main l.
        continue (bind_sources duck main bindings [] l)
          (λ report l'. (require duck.writes_map internal_error >> ok report, l')))

-- `verify`: every exception becomes a BindingError.
unfoldable pub attach_all : Duck → List (String × String) → Log → Result (Unit {0}) × Log
attach_all duck [] log = (ok tt, log)
attach_all duck ((catalog, path) ∷ rest) log =
    continue (quote_duckdb_identifier catalog, log)
      (λ name l.
        continue
          (perform duck duck.database
            ("ATTACH " +++ quote_duckdb_string path +++ " AS " +++ name +++ " (READ_ONLY)") l)
          (λ _. attach_all duck rest))

unfoldable pub quote_parts : List String → Result (List String)
quote_parts [] = ok []
quote_parts (part ∷ parts) =
    quote_duckdb_identifier part >>= λ p. quote_parts parts >>= λ ps. ok (p ∷ ps)

unfoldable pub filled_parts : List String → List String
filled_parts [] = []
filled_parts (part ∷ parts) =
    let rest = filled_parts parts in if part == "" then rest else part ∷ rest

abbrev pub parts_of : Relation → List String
parts_of r = elim r.catalog [
  | none ↦ filled_parts (r.schema ∷ r.identifier ∷ [])
  | some c ↦ filled_parts (c ∷ r.schema ∷ r.identifier ∷ [])
]

unfoldable pub rendered : Relation → Result String
unfolding quote_parts filled_parts
rendered r = quote_parts (parts_of r) >>= λ parts. ok (join "." parts)

-- The statement of a read, which changes nothing.
abbrev pub selects : Duck → Log → String → Bool
selects duck log name = duck.execute log duck.database ("SELECT * FROM " +++ name +++ " LIMIT 0")

-- `by_source`: a later result of the same source replaces an earlier one.
unfoldable pub by_source :
    List BindingResult → List (String × BindingResult) → List (String × BindingResult)
by_source [] found = found
by_source (r ∷ rs) found = by_source rs (insert r.source_unique_id r found)

abbrev pub checked_result : Option BindingResult → Result BindingResult
checked_result none = err binding_error
checked_result (some current) = ok (record current { verified = true })

unfoldable pub verify_source :
    Duck → Log → List (String × BindingResult) → SourceBinding → Result BindingResult
unfolding rendered
verify_source duck log found b = rendered b.mapping.local_relation >>= λ name.
    require (selects duck log name) binding_error
    >> checked_result (lookup b.mapping.source.unique_id found)

unfoldable pub verify_sources :
    Duck → Log → List (String × BindingResult) → List SourceBinding → Result (List BindingResult)
unfolding verify_source
verify_sources duck log found [] = ok []
verify_sources duck log found (b ∷ bs) =
    verify_source duck log found b >>= λ r. verify_sources duck log found bs >>= λ rs. ok (r ∷ rs)

-- What was executed when the catalogs of a report have been attached.
abbrev pub attached : Duck → BindingReport → Log → Result (Unit {0}) × Log
attached duck report log = attach_all duck report.attachments log

unfoldable pub verify : Duck → BindingReport → List SourceBinding → Log → Result BindingReport
unfolding attach_all verify_sources by_source
verify duck report bindings log =
    require (duck.connects duck.database) binding_error
    >> (attached duck report log).0
    >> verify_sources duck (attached duck report log).1 (by_source report.results []) bindings
    >>= λ results. ok (record report { results = results })
