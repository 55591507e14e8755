-- ===== src/Policy/Sampling.antt =====
-- snapshot/policy.py: `resolve_sampling` and `apply_max_rows`. `fnmatchcase value pattern` is the
-- test of Python's `fnmatch`.
use dbtv.Common.{ℕ, min, String, Bool, List, [], ◌∷◌, Option, none, some, if◌then◌else◌, any_of}
use Prim.Native.String.{◌++◌}
use dbtv.Models.{SourceRef, SamplingSpec, full, limit, where_, where_limit}
use dbtv.Config.{SamplingRule, SourceSamplingRule, DataProfile}

abbrev pub candidates : SourceRef → List String
candidates s =
    ("source:" ++ s.source_name ++ "." ++ s.table_name)
    ∷ ("source:" ++ s.package_name ++ "." ++ s.source_name ++ "." ++ s.table_name)
    ∷ s.unique_id
    ∷ []

unfoldable pub spec_of : SamplingRule → SamplingSpec
spec_of rule = record {
  strategy = rule.strategy;
  limit = rule.limit;
  predicate = rule.predicate;
  key = rule.key;
  rate = rule.rate;
  seed = rule.seed;
}

module _ (fnmatchcase : String → String → Bool) where
  -- The loop over the rules: the last rule that matches is selected.
  unfoldable pub last_match : SourceRef → SamplingRule → List SourceSamplingRule → SamplingRule
  last_match source selected [] = selected
  last_match source selected (r ∷ rs) =
      last_match source
        (if any_of (λ c. fnmatchcase c r.select) (candidates source) then r.rule else selected) rs

  unfoldable pub resolve_sampling : DataProfile → SourceRef → SamplingSpec
  unfolding last_match spec_of
  resolve_sampling profile source = spec_of (last_match source profile.default profile.sources)

abbrev pub cap_limit : ℕ → SamplingSpec → SamplingSpec
cap_limit maximum s = record s {
  limit = elim s.limit [ none ↦ none | some n ↦ some (min n maximum) ];
}

unfoldable pub apply_max_rows : SamplingSpec → Option ℕ → SamplingSpec
apply_max_rows s none = s
apply_max_rows s (some maximum) = elim s.strategy [
  | full ↦ record s { strategy = limit; limit = some maximum }
  | where_ ↦ record s { strategy = where_limit; limit = some maximum }
  | _ ↦ cap_limit maximum s
]
