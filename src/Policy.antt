-- ===== src/Policy.antt =====
-- snapshot/policy.py: sampling and the policy on local data.
mod Sampling
mod Evaluate
pub mod Bounds
pub mod Allowed
pub mod Validated
pub mod Tests
unfoldable pub use Sampling.{candidates, spec_of, last_match, resolve_sampling, apply_max_rows}
unfoldable pub use Evaluate.{intersects, is_where, exceeds, evaluate_sampling}
