-- ===== src/Policy/Evaluate.antt =====
-- snapshot/policy.py: `LocalPolicyEngine.evaluate_sampling`.
use dbtv.Common.{
  ℕ, String, Bool, true, false, not, ◌&&◌, ◌||◌, List, Option, none, some, ltb, nat_eq, any_of,
  member,
}
use dbtv.Errors.{Result, policy_error, require, ◌>>◌}
use dbtv.Models.{
  SamplingSpec, SamplingStrategy, full, where_, where_limit, FidelityMode, strict, warn, lossy,
}
use dbtv.Config.{PolicySettings}

-- `set(tags) & set(others)` is not empty.
unfoldable pub intersects : List String → List String → Bool
intersects tags others = any_of (λ t. member t others) tags

abbrev pub is_full : SamplingStrategy → Bool
is_full full = true
is_full _ = false

abbrev pub is_where : SamplingStrategy → Bool
is_where where_ = true
is_where where_limit = true
is_where _ = false

abbrev pub fidelity_eq : FidelityMode → FidelityMode → Bool
fidelity_eq strict strict = true
fidelity_eq warn warn = true
fidelity_eq lossy lossy = true
fidelity_eq _ _ = false

-- The fidelity that is given differs from the one that is required.
abbrev pub fidelity_differs : Option FidelityMode → Option FidelityMode → Bool
fidelity_differs (some f) (some g) = not (fidelity_eq f g)
fidelity_differs _ _ = false

-- `sampling.limit and sampling.limit > maximum`: a limit of 0 counts as none.
abbrev pub exceeds : Option ℕ → ℕ → Bool
exceeds none maximum = false
exceeds (some n) maximum = not (nat_eq n 0) && ltb maximum n

unfoldable pub evaluate_sampling :
    PolicySettings → Bool → SamplingSpec → List String → Option FidelityMode → Result (Unit {0})
evaluate_sampling settings allow_full sampling tags fidelity =
    require (not (intersects tags settings.deny_source_tags)) policy_error
    >> require
        (not (intersects tags settings.require_explicit_where_for_tags)
          || is_where sampling.strategy)
        policy_error
    >> require (not (fidelity_differs fidelity settings.require_fidelity)) policy_error
    >> require (not (is_full sampling.strategy) || (settings.allow_full_source || allow_full))
        policy_error
    >> require (not (exceeds sampling.limit settings.max_rows_per_source)) policy_error
