-- ===== src/Policy/Tests.antt =====
-- Runs of the policy.
use dbtv.Common.{◌≡◌, refl, ◌↔◌, ◌⊎◌, true, false, [], ◌∷◌, none, some, ◌==◌, keep}
use dbtv.Errors.{ok, err, policy_error}
use dbtv.Models.{full, limit, strict}
use dbtv.Config.{SamplingRule, DataProfile, PolicySettings}
use dbtv.Policy.Sampling.{apply_max_rows, resolve_sampling, spec_of}
use dbtv.Policy.Evaluate.{evaluate_sampling}
use dbtv.Policy.Bounds.{IsWithin, last_rule, matches, resolve_sampling_lem}
use dbtv.Policy.Validated.{validate_rule-bounded}
use dbtv.Config.Validate.{validate_rule}
use dbtv.Policy.Allowed.{IsAllowed, evaluate_sampling_iff}
use dbtv.Samples.{orders, sampling}

abbrev policy : PolicySettings
policy = record {
  allow_full_source = false;
  max_rows_per_source = 1000;
  max_estimated_bytes_per_run = 10;
  max_extracted_bytes_per_run = 10;
  max_workspace_bytes = 10;
  minimum_free_disk = 1;
  require_explicit_where_for_tags = "large" ∷ [];
  deny_source_tags = "pii" ∷ [];
  max_cache_age_for_tags = [];
  require_fidelity = some strict;
  cache_file_mode = "0600";
  cache_directory_mode = "0700";
}

abbrev rule : SamplingRule
rule = record {
  strategy = limit;
  limit = some 100;
  predicate = none;
  key = none;
  rate = none;
  seed = none;
  deterministic = false;
}

abbrev profile : DataProfile
profile = record {
  default = record rule { strategy = full; limit = none };
  sources = (record { select = "source:raw.orders"; rule = rule }) ∷ [];
  cohorts = [];
}

resolve_sampling_lem_example :
    resolve_sampling (λ a b. a == b) profile orders
    ≡ spec_of (last_rule profile.default (keep (matches (λ a b. a == b) orders) profile.sources))
resolve_sampling_lem_example = resolve_sampling_lem (λ a b. a == b) profile orders

evaluate_sampling_iff_example :
    ((evaluate_sampling policy false sampling ("daily" ∷ []) (some strict) ≡ ok tt)
      ↔ IsAllowed policy false sampling ("daily" ∷ []) (some strict))
    × ((evaluate_sampling policy false sampling ("daily" ∷ []) (some strict) ≡ ok tt)
        ⊎ (evaluate_sampling policy false sampling ("daily" ∷ []) (some strict) ≡ err policy_error))
evaluate_sampling_iff_example =
    evaluate_sampling_iff policy false sampling ("daily" ∷ []) (some strict)

validated : validate_rule (λ s. false) rule ≡ true
unfolding validate_rule
validated = refl

validate_rule-bounded_example : IsWithin (apply_max_rows (spec_of rule) (some 50)) 50
validate_rule-bounded_example = validate_rule-bounded (λ s. false) rule 50 validated refl
