-- ===== src/Sources/Cohorts.antt =====
-- sources.py: `_cohort_literal` and `materialize_cohort`. `execute` is the answer of DuckDB to a query
-- with its parameters, none where it raises; `show` writes a number.
use dbtv.Common.{
  ℕ, ◌+◌, String, Bool, true, false, not, List, [], ◌∷◌, map, Option, none, some, if◌then◌else◌,
  ltb, length, doubled, split_on, join, has_control,
}
use Prim.Native.String.{◌++◌}
use dbtv.Errors.{Result, ok, err, policy_error, require, ◌>>=◌, ◌>>◌}
use dbtv.Models.{SnapshotRequest, SamplingSpec, where_, DatasetSnapshot}
use dbtv.Config.{CohortRule}
use dbtv.Backend.Quote.{quote_duckdb_identifier}
use dbtv.Sources.Planned.{PlannedSource}
use dbtv.Sources.Scope.{or_text}

-- A value of a column with the text that `str` gives for it; `written` are texts, dates and times.
pub data KeyValue : Type 0 where
  boolean : Bool → KeyValue
  integer finite written : String → KeyValue
  other : KeyValue

abbrev pub quoted : String → String
quoted part = "'" ++ doubled 39 part ++ "'"

unfoldable pub text_literal : String → String
text_literal text = "(" ++ join " || CHR(92) || " (map quoted (split_on 92 text)) ++ ")"

unfoldable pub cohort_literal : KeyValue → Result String
unfolding has_control
cohort_literal (boolean true) = ok "TRUE"
cohort_literal (boolean false) = ok "FALSE"
cohort_literal (integer digits) = ok digits
cohort_literal (finite digits) = ok digits
cohort_literal (written text) =
    require (not (has_control text)) policy_error >> ok (text_literal text)
cohort_literal other = err policy_error

unfoldable pub cohort_literals : List KeyValue → Result (List String)
cohort_literals [] = ok []
cohort_literals (v ∷ vs) =
    cohort_literal v >>= λ text. cohort_literals vs >>= λ texts. ok (text ∷ texts)

-- What `connection_scope` of a cohort hashes.
pub record CohortIdentity : Type 0 where
  pub connection : String
  pub parent_snapshot : String
  pub recipe : CohortRule

abbrev pub where_sampling : String → SamplingSpec
where_sampling predicate = record {
  strategy = where_;
  limit = none;
  predicate = some predicate;
  key = none;
  rate = none;
  seed = none;
}

-- `predicate`, for the literals of the keys.
abbrev pub key_predicate : CohortRule → List String → Result String
key_predicate rule [] = ok "FALSE"
key_predicate rule (value ∷ values) = quote_duckdb_identifier rule.key >>= λ key.
    ok (key ++ " IN (" ++ join ", " (value ∷ values) ++ ")")

abbrev pub parquet_paths : (String → String → String) → DatasetSnapshot → List String
parquet_paths join_path s = map (λ file. join_path s.root file.path) s.files

module _ (show : ℕ → String) (execute : String → List String → Option (List KeyValue))
    (hash_cohort : CohortIdentity → String) (join_path : String → String → String) where
  -- The text of the query for the quoted key.
  abbrev pub key_query : CohortRule → String → String
  key_query rule key =
      "SELECT DISTINCT "
      ++ key
      ++ " FROM read_parquet(?) WHERE "
      ++ key
      ++ " IS NOT NULL ORDER BY 1 LIMIT "
      ++ show (rule.max_keys + 1)

  abbrev pub cohort_request :
      CohortRule → DatasetSnapshot → SnapshotRequest → String → SnapshotRequest
  cohort_request rule parent base predicate = record base {
    sampling =
        where_sampling
          ("(" ++ or_text base.sampling.predicate "TRUE" ++ ") AND (" ++ predicate ++ ")");
    connection_scope = hash_cohort (record {
      connection = base.connection_scope;
      parent_snapshot = parent.snapshot_key;
      recipe = rule;
    });
  }

  abbrev pub with_request : PlannedSource → SnapshotRequest → PlannedSource
  with_request source request = record source {
    decision = record source.decision { request = request };
    cohort_ready = true;
  }

  abbrev pub keys_of : CohortRule → Option (List KeyValue) → Result (List String)
  keys_of rule none = err policy_error
  keys_of rule (some rows) =
      require (not (ltb rule.max_keys (length rows))) policy_error >> cohort_literals rows

  unfoldable pub read_keys : CohortRule → DatasetSnapshot → Result (List String)
  unfolding cohort_literals
  read_keys rule parent = quote_duckdb_identifier rule.parent_key >>= λ key.
      keys_of rule (execute (key_query rule key) (parquet_paths join_path parent))

  unfoldable pub materialize_cohort : PlannedSource → DatasetSnapshot → Result PlannedSource
  materialize_cohort source parent = if source.cohort_ready then ok source else elim source.cohort [
    | none ↦ ok source
    | some rule ↦ read_keys rule parent >>= λ values. key_predicate rule values >>= λ predicate.
        ok (with_request source (cohort_request rule parent source.decision.request predicate))
  ]
