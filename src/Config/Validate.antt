-- ===== src/Config/Validate.antt =====
-- config/schema.py: the validators of sampling rules and of references. A validator that raises is
-- `false`. `has_statement text` is the search for `;`, `--`, `/*` and `*/`, and `is_blank` the test
-- that nothing is left by `strip`.
use dbtv.Common.{
  ℕ, ◌^◌, String, Bool, true, false, not, ◌&&◌, ◌||◌, ◌==◌, List, [], ◌∷◌, Option, none, some,
  all_of, ltb, leb, lookup,
}
use dbtv.Models.{SamplingStrategy, limit, where_, where_limit, hash, bernoulli, Float}
use dbtv.Config.{SamplingRule, SourceRoute, SourceSettings}
use dbtv.Config.Whole.{DbtvConfig}

abbrev pub is_present {ℓ} : {A : Type ℓ} → Option A → Bool
is_present none = false
is_present (some a) = true

-- A text that is given and not empty.
abbrev pub is_filled : Option String → Bool
is_filled none = false
is_filled (some s) = not (s == "")

-- The bounds of the fields: `gt=0` for the limit, `gt=0, le=1` for the rate.
abbrev pub is_limit : Option ℕ → Bool
is_limit none = true
is_limit (some n) = ltb 0 n

abbrev pub is_rate : Option Float → Bool
is_rate none = true
is_rate (some f) = ltb 0 f.mantissa && leb f.mantissa (2 ^ f.scale)

abbrev pub needs_limit : SamplingStrategy → Bool
needs_limit limit = true
needs_limit where_limit = true
needs_limit _ = false

abbrev pub needs_where : SamplingStrategy → Bool
needs_where where_ = true
needs_where where_limit = true
needs_where _ = false

abbrev pub is_hash : SamplingStrategy → Bool
is_hash hash = true
is_hash _ = false

abbrev pub is_bernoulli : SamplingStrategy → Bool
is_bernoulli bernoulli = true
is_bernoulli _ = false

abbrev pub meets : (String → Bool) → Option String → Bool
meets test none = false
meets test (some s) = test s

unfoldable pub validate_rule : (String → Bool) → SamplingRule → Bool
validate_rule has_statement rule =
    is_limit rule.limit
    && (is_rate rule.rate
        && (not (needs_limit rule.strategy && not (is_present rule.limit))
            && (not (needs_where rule.strategy && not (is_filled rule.predicate))
                && (not (
                      is_hash rule.strategy
                      && (not (is_filled rule.key) || not (is_present rule.rate)))
                    && (not (is_bernoulli rule.strategy && not (is_present rule.rate))
                        && not (is_filled rule.predicate && meets has_statement rule.predicate))))))

abbrev pub is_route : List (String × SourceSettings) → SourceRoute → Bool
is_route connections route =
    is_present (lookup route.connection connections) && elim route.projection [
      | none ↦ true
      | some columns ↦ elim columns [ [] ↦ false | c ∷ cs ↦ true ]
    ]

-- `validate_default_profile` and `validate_profile_reference`.
unfoldable pub validate_references : (String → Bool) → DbtvConfig → Bool
validate_references is_blank config =
    not (is_blank config.default_data_profile)
    && (is_present (lookup config.default_data_profile config.data_profiles)
        && all_of (is_route config.connections) config.routes)
