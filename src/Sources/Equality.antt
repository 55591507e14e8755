-- ===== src/Sources/Equality.antt =====
-- The equality of planned sources, field by field, as `@dataclass` generates it.
use dbtv.Common.{String, Bool, true, false, ◌≡◌, refl, ◌↔◌, ◌==◌, eq_iff}
use mathlib.Core.Bool.{Bool-discrete}
use mathlib.Core.Logic.{dite}
use native.Mathlib.Decide.{ℕ_discrete}
use dbtv.Models.{
  SamplingStrategy, FidelityMode, SamplingSpec, DatasetSnapshot, SnapshotAction, SnapshotDecision,
}
use dbtv.Config.{SourceSettings}
use dbtv.Sources.Planned.{PlannedSource, SameSource}

string_discrete : Discrete String
string_discrete s t =
    dite (Bool-discrete (s == t) true) (λ same. yes ((eq_iff s t).0 same))
      (λ differ. no (λ p. differ ((eq_iff s t).1 p)))

SamplingStrategy-discrete : Discrete SamplingStrategy
SamplingStrategy-discrete = hlevel

FidelityMode-discrete : Discrete FidelityMode
FidelityMode-discrete = hlevel

SnapshotAction-discrete : Discrete SnapshotAction
SnapshotAction-discrete = hlevel

SamplingSpec-discrete : Discrete SamplingSpec
SamplingSpec-discrete = hlevel (SamplingStrategy-discrete, ℕ_discrete, string_discrete)

DatasetSnapshot-discrete : Discrete DatasetSnapshot
DatasetSnapshot-discrete =
    hlevel (string_discrete, ℕ_discrete, SamplingSpec-discrete, FidelityMode-discrete)

SnapshotDecision-discrete : Discrete SnapshotDecision
SnapshotDecision-discrete = hlevel (
  string_discrete, ℕ_discrete, SamplingSpec-discrete, DatasetSnapshot-discrete,
  SnapshotAction-discrete, FidelityMode-discrete,
)

SourceSettings-discrete : Discrete SourceSettings
SourceSettings-discrete = hlevel (string_discrete, ℕ_discrete)

pub PlannedSource-discrete : Discrete PlannedSource
PlannedSource-discrete =
    hlevel (string_discrete, ℕ_discrete, SnapshotDecision-discrete, SourceSettings-discrete)

unfoldable pub same_source : PlannedSource → PlannedSource → Bool
same_source a b = elim (PlannedSource-discrete a b) [ yes p ↦ true | no n ↦ false ]

pub same_source-SameSource : SameSource same_source
unfolding same_source
same_source-SameSource = record { iff = λ a b. by_decision a b (PlannedSource-discrete a b) }
  where
    by_decision :
        (a b : PlannedSource) (d : Dec (a ≡ b))
        → (elim d [ yes p ↦ true | no n ↦ false ] ≡ true) ↔ (a ≡ b)
    by_decision a b (yes p) = ((λ h. p), (λ h. refl))
    by_decision a b (no n) = ((λ h. cc), (λ h. absurd (n h)))
