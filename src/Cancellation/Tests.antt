-- ===== src/Cancellation/Tests.antt =====
-- An interleaving: a registration reads the flag, a cancellation sets it, the registration appends, and
-- the cancellation takes and runs the callback.
use dbtv.Common.{◌+◌, ◌≡◌, refl, true, [], ◌∷◌}
use dbtv.Cancellation.Token.{
  Token, fresh, register, check, Reach, here, then_, starts, appends, checks, sets, takes, runs,
}
use dbtv.Cancellation.Counts.{count}
use dbtv.Cancellation.Threads.{Conserves, Reach-Conserves, cancel-runs_all}

abbrev last : Token
last = record fresh { is_set = true; registered = 7 ∷ []; ran = 7 ∷ [] }

reached : Reach last
unfolding register check
reached =
    then_
      (then_
        (then_ (then_ (then_ (then_ here (starts 7 refl)) checks) (sets 0 refl)) (appends 7 refl))
        (takes 0 refl refl))
      (runs [] 7 [] refl)

Reach-Conserves_example : Conserves 7 last
Reach-Conserves_example = Reach-Conserves 7 reached

cancel-runs_all_example : count 7 last.registered ≡ count 7 last.ran + count 7 last.removed
cancel-runs_all_example = cancel-runs_all 7 reached refl refl refl
