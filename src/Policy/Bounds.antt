-- ===== src/Policy/Bounds.antt =====
-- What `--max-rows` does to a sampling, and which rule of a profile a source takes.
use dbtv.Common.{
  ℕ, ◌≤◌, min, String, ◌≡◌, ◌≢◌, refl, ap, Bool, true, false, ◌||◌, List, [], ◌∷◌, Option, none,
  some, any_of, keep, arith, Bool-cases, inl, inr,
}
use dbtv.Models.{
  SamplingSpec, SamplingStrategy, full, limit, where_, where_limit, hash, bernoulli, SourceRef,
}
use dbtv.Config.{SamplingRule, SourceSamplingRule, DataProfile}
use dbtv.Policy.Sampling.{candidates, spec_of, last_match, resolve_sampling, apply_max_rows}

abbrev pub is_some {ℓ} : {A : Type ℓ} → Option A → Bool
is_some none = false
is_some (some a) = true

-- The strategies that have no limit of their own.
abbrev pub is_unlimited : SamplingStrategy → Bool
is_unlimited full = true
is_unlimited where_ = true
is_unlimited _ = false

-- The sampling has a limit within the cap and is no full extraction.
abbrev pub IsWithin : SamplingSpec → ℕ → Type 0
IsWithin s maximum = (s.strategy ≢ full) × ((n : ℕ) × (s.limit ≡ some n) × (n ≤ maximum))

IsWithin-cap :
    (s : SamplingSpec) (maximum : ℕ) (g : SamplingStrategy) (l : Option ℕ)
    → (is_unlimited g || is_some l) ≡ true
    → IsWithin (apply_max_rows (record s { strategy = g; limit = l }) (some maximum)) maximum
unfolding apply_max_rows
IsWithin-cap s m full l h = ((λ e. cc), (m, refl, omega arith))
IsWithin-cap s m where_ l h = ((λ e. cc), (m, refl, omega arith))
IsWithin-cap s m limit (some n) h = ((λ e. cc), (min n m, refl, omega arith))
IsWithin-cap s m where_limit (some n) h = ((λ e. cc), (min n m, refl, omega arith))
IsWithin-cap s m hash (some n) h = ((λ e. cc), (min n m, refl, omega arith))
IsWithin-cap s m bernoulli (some n) h = ((λ e. cc), (min n m, refl, omega arith))
IsWithin-cap s m _ none h = cc

-- A cap on the rows leaves no full extraction, and a sampling that is full, by a predicate or with a
-- limit has a limit within the cap afterwards.
pub apply_max_rows-bounded :
    (s : SamplingSpec) (maximum : ℕ)
    → (is_unlimited s.strategy || is_some s.limit) ≡ true
    → IsWithin (apply_max_rows s (some maximum)) maximum
apply_max_rows-bounded s maximum h = IsWithin-cap s maximum s.strategy s.limit h

min_assoc : (n a b : ℕ) → min (min n a) b ≡ min n (min a b)
min_assoc n a b = omega arith

two_caps :
    (s : SamplingSpec) (a b : ℕ) (g : SamplingStrategy) (l : Option ℕ)
    → apply_max_rows (apply_max_rows (record s { strategy = g; limit = l }) (some a)) (some b)
      ≡ apply_max_rows (record s { strategy = g; limit = l }) (some (min a b))
unfolding apply_max_rows
two_caps s a b full l = refl
two_caps s a b where_ l = refl
two_caps s a b _ none = refl
two_caps s a b limit (some n) =
    ap (λ l. record s { strategy = limit; limit = some l }) (min_assoc n a b)
two_caps s a b where_limit (some n) =
    ap (λ l. record s { strategy = where_limit; limit = some l }) (min_assoc n a b)
two_caps s a b hash (some n) =
    ap (λ l. record s { strategy = hash; limit = some l }) (min_assoc n a b)
two_caps s a b bernoulli (some n) =
    ap (λ l. record s { strategy = bernoulli; limit = some l }) (min_assoc n a b)

-- Two caps are the smaller one.
pub apply_max_rows-apply_max_rows :
    (s : SamplingSpec) (a b : ℕ)
    → apply_max_rows (apply_max_rows s (some a)) (some b) ≡ apply_max_rows s (some (min a b))
apply_max_rows-apply_max_rows s a b = two_caps s a b s.strategy s.limit

-- The last rule of a list, or the one given for the empty list.
abbrev pub last_rule : SamplingRule → List SourceSamplingRule → SamplingRule
last_rule selected [] = selected
last_rule selected (r ∷ rs) = last_rule r.rule rs

module _ (fnmatchcase : String → String → Bool) where
  abbrev pub matches : SourceRef → SourceSamplingRule → Bool
  matches source r = any_of (λ c. fnmatchcase c r.select) (candidates source)

  last_match_lem :
      (source : SourceRef) (selected : SamplingRule) (rs : List SourceSamplingRule)
      → last_match fnmatchcase source selected rs ≡ last_rule selected (keep (matches source) rs)
  unfolding last_match keep
  last_match_lem source selected [] = refl
  last_match_lem source selected (r ∷ rs) = elim (Bool-cases (matches source r)) [
    | inl t ↦ rw t (last_match_lem source r.rule rs)
    | inr t ↦ rw t (last_match_lem source selected rs)
  ]

  -- The sampling of a source is that of the last rule of the profile whose pattern matches one of the
  -- source's names, and that of the default when no rule matches.
  pub resolve_sampling_lem :
      (profile : DataProfile) (source : SourceRef)
      → resolve_sampling fnmatchcase profile source
        ≡ spec_of (last_rule profile.default (keep (matches source) profile.sources))
  unfolding resolve_sampling
  resolve_sampling_lem profile source =
      ap spec_of (last_match_lem source profile.default profile.sources)
