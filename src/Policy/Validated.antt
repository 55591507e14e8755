-- ===== src/Policy/Validated.antt =====
-- The row cap on the rules of a validated configuration.
use dbtv.Common.{
  and-left, and-right, ℕ, String, ◌≡◌, refl, Bool, true, false, not, ◌&&◌, ◌||◌, Option, none, some,
}
use dbtv.Models.{SamplingStrategy, full, limit, where_, where_limit, hash, bernoulli}
use dbtv.Config.{SamplingRule}
use dbtv.Config.Validate.{
  is_present, is_limit, is_rate, needs_limit, is_hash, is_bernoulli, validate_rule,
}
use dbtv.Policy.Sampling.{spec_of, apply_max_rows}
use dbtv.Policy.Bounds.{is_some, is_unlimited, IsWithin, apply_max_rows-bounded}

has_bound :
    (g : SamplingStrategy) (l : Option ℕ)
    → not (needs_limit g && not (is_present l)) ≡ true
    → (is_hash g || is_bernoulli g) ≡ false
    → (is_unlimited g || is_some l) ≡ true
has_bound full l h k = refl
has_bound where_ l h k = refl
has_bound limit none h k = cc
has_bound limit (some n) h k = refl
has_bound where_limit none h k = cc
has_bound where_limit (some n) h k = refl
has_bound hash l h k = cc
has_bound bernoulli l h k = cc

-- A rule that the configuration accepts and that does not sample by hash or at random extracts, under a
-- row cap, at most that many rows: its sampling is not full and has a limit within the cap.
pub validate_rule-bounded :
    (has_statement : String → Bool) (rule : SamplingRule) (maximum : ℕ)
    → validate_rule has_statement rule ≡ true
    → (is_hash rule.strategy || is_bernoulli rule.strategy) ≡ false
    → IsWithin (apply_max_rows (spec_of rule) (some maximum)) maximum
unfolding validate_rule spec_of
validate_rule-bounded has_statement rule maximum h k =
    let rest = and-right (is_rate rule.rate) _ (and-right (is_limit rule.limit) _ h) in
    apply_max_rows-bounded (spec_of rule) maximum (
      has_bound rule.strategy rule.limit
        (and-left (not (needs_limit rule.strategy && not (is_present rule.limit))) _ rest) k)
