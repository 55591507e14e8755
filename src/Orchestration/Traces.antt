-- ===== src/Orchestration/Traces.antt =====
-- The transitions of a run, and what a step of it leaves alone.
use dbtv.Common.{String, ◌≡◌, refl, subst, Bool, true, false, ◌&&◌, List, [], ◌∷◌, if◌then◌else◌}
use dbtv.Errors.{Result}
use dbtv.Errors.Calls.{Ends}
use dbtv.Orchestration.Run.{
  RunState, planning, planned, policy_approved, sources_ready, bound, dbt_completed, succeeded,
  dbt_failed, failed, Run, transition,
}

-- The edges of the run's states: `sync` ends without dbt, and every state but FAILED may fail, the two in
-- which a run is recorded as ended too.
abbrev pub edge : RunState → RunState → Bool
edge planning planned = true
edge planned policy_approved = true
edge policy_approved sources_ready = true
edge sources_ready bound = true
edge bound dbt_completed = true
edge sources_ready succeeded = true
edge dbt_completed succeeded = true
edge dbt_completed dbt_failed = true
edge failed _ = false
edge _ failed = true
edge _ _ = false

-- A path from planning along the edges, the latest state first.
abbrev pub IsPath : List RunState → Type 0
IsPath [] = ⊥
IsPath (s ∷ []) = s ≡ planning
IsPath (t ∷ s ∷ rest) = (edge s t ≡ true) × IsPath (s ∷ rest)

abbrev pub IsHead : RunState → List RunState → Type 0
IsHead s [] = ⊥
IsHead s (t ∷ ts) = t ≡ s

-- The run is in the state, by a path, and has left the remote side alone if the mode is local.
pub record IsAt (is_local : Bool) (s : RunState) (run : Run) : Type 0 where
  pub path : IsPath run.transitions
  pub head : IsHead s run.transitions
  pub attempted : (is_local && run.remote_attempted) ≡ false
  pub queries : (if is_local then run.remote_queries else 0) ≡ 0

pub IsPath-cons :
    (s t : RunState) (ts : List RunState)
    → IsPath ts
    → IsHead s ts
    → edge s t ≡ true
    → IsPath (t ∷ ts)
IsPath-cons s t [] p h e = absurd p
IsPath-cons s t (u ∷ ts) p h e = (rw h e, p)

module _ (is_local : Bool) where
  -- The run is in a state from which it may fail.
  pub record IsOpen (run : Run) : Type 0 where
    pub state : RunState
    pub live : edge state failed ≡ true
    pub at : IsAt is_local state run

  -- How a stage from one state to another ends.
  abbrev pub Stage : RunState → {A : Type 0} → Result A × Run → Type 0
  Stage t m = Ends (λ _ run. IsAt is_local t run) IsOpen m

  pub transition-IsAt :
      (id : String) (s t : RunState) (run : Run)
      → edge s t ≡ true
      → IsAt is_local s run
      → IsAt is_local t (transition id t run)
  unfolding transition
  transition-IsAt id s t run e a = record {
    path = IsPath-cons s t run.transitions a.path a.head e;
    head = refl;
    attempted = a.attempted;
    queries = a.queries;
  }

  -- A change of the run that keeps its transitions and leaves the remote side alone.
  pub record Keeps (run run' : Run) : Type 0 where
    pub transitions : run.transitions ≡ run'.transitions
    pub attempted : run.remote_attempted ≡ run'.remote_attempted
    pub queries : run.remote_queries ≡ run'.remote_queries

  pub Keeps-IsAt :
      (s : RunState) (run run' : Run) → Keeps run run' → IsAt is_local s run → IsAt is_local s run'
  Keeps-IsAt s run run' k a = record {
    path = subst IsPath k.transitions a.path;
    head = subst (IsHead s) k.transitions a.head;
    attempted = subst (λ b. (is_local && b) ≡ false) k.attempted a.attempted;
    queries = subst (λ n. (if is_local then n else 0) ≡ 0) k.queries a.queries;
  }
