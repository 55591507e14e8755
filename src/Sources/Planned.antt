-- ===== src/Sources/Planned.antt =====
-- sources.py: `PlannedSource` and `source_levels`. The loop takes fuel, one round for each source;
-- `internal_error` stands for fuel that ran out, and the theorems show that it never does.
use dbtv.Common.{
  ℕ, zero, suc, String, ◌≡◌, ◌↔◌, Bool, true, false, not, List, [], ◌∷◌, map, Option, none, some,
  length, keep, any_of, member,
}
use dbtv.Errors.{Result, ok, err, config_error, internal_error, ◌>>=◌}
use dbtv.Models.{SnapshotDecision}
use dbtv.Config.{SourceSettings, CohortRule}

pub record PlannedSource : Type 0 where
  pub connection_name : String
  pub settings : SourceSettings
  pub decision : SnapshotDecision
  pub cohort : Option CohortRule
  pub cohort_parent : Option String
  pub cohort_ready : Bool

abbrev pub unique_id : PlannedSource → String
unique_id s = s.decision.request.source.unique_id

-- The equality that `@dataclass` generates, which compares all fields.
pub record SameSource (same : PlannedSource → PlannedSource → Bool) : Type 0 where
  pub iff : (a b : PlannedSource) → (same a b ≡ true) ↔ (a ≡ b)

-- `item.cohort_parent in pending_ids`.
abbrev pub is_waiting : List String → PlannedSource → Bool
is_waiting ids s = elim s.cohort_parent [ none ↦ false | some p ↦ member p ids ]

abbrev pub ready : List PlannedSource → List PlannedSource
ready remaining = keep (λ s. not (is_waiting (map unique_id remaining) s)) remaining

module _ (same : PlannedSource → PlannedSource → Bool) where
  -- `[item for item in remaining if item not in ready]`.
  abbrev pub waiting : List PlannedSource → List PlannedSource
  waiting remaining = keep (λ s. not (any_of (same s) (ready remaining))) remaining

  unfoldable pub levels : ℕ → List PlannedSource → Result (List (List PlannedSource))
  levels fuel [] = ok []
  levels zero (s ∷ rest) = err internal_error
  levels (suc fuel) (s ∷ rest) =
      let later = levels fuel (waiting (s ∷ rest)) in
      elim (ready (s ∷ rest)) [
        | [] ↦ err config_error
        | r ∷ rs ↦ later >>= λ ls. ok ((r ∷ rs) ∷ ls)
      ]

  unfoldable pub source_levels : List PlannedSource → Result (List (List PlannedSource))
  unfolding levels
  source_levels sources = levels (length sources) sources
