-- ===== src/Cancellation/Threads.antt =====
-- What holds of every interleaving of the threads.
use dbtv.Common.{
  ℕ, ◌+◌, ◌≡◌, refl, ◌∙◌, Bool, true, false, [], ◌∷◌, Option, none, some, if◌then◌else◌, nat_eq,
  arith, Bool-cases, inl, inr, Bool-absurd,
}
use dbtv.Cancellation.Token.{
  Token, has, register, unregister, check, Step, starts, appends, unregisters, checks, sets, takes,
  runs, Reach, here, then_,
}
use dbtv.Cancellation.Counts.{one_if, count, count-append, count-remove}

abbrev pub held : ℕ → Option ℕ → ℕ
held c none = 0
held c (some d) = one_if (nat_eq d c)

-- A callback is registered as often as it stands in one of the places where it can be.
abbrev pub Conserves : ℕ → Token → Type 0
Conserves c t =
    count c t.registered
    ≡ count c t.ran
      + (count c t.removed + (count c t.taken + (count c t.callbacks + held c t.appending)))

register-Conserves :
    (c d : ℕ) (t : Token) → t.appending ≡ none → Conserves c t → Conserves c (register d t)
unfolding register count
register-Conserves c d t e h = elim (Bool-cases t.is_set) [
  | inl s ↦ rw s (omega (arith, h))
  | inr s ↦ rw s (omega (arith, rw e at h))
]

unregister-Conserves : (c d : ℕ) (t : Token) → Conserves c t → Conserves c (unregister d t)
unfolding unregister count
unregister-Conserves c d t h = elim (Bool-cases (has d t.callbacks)) [
  | inl s ↦ rw s (omega (arith, h, count-remove c d t.callbacks s))
  | inr s ↦ rw s h
]

check-Conserves : (c : ℕ) (t : Token) → Conserves c t → Conserves c (check t)
unfolding check
check-Conserves c t h = elim (Bool-cases t.is_set) [ inl s ↦ rw s h | inr s ↦ rw s h ]

Step-Conserves : (c : ℕ) {s t : Token} → Conserves c s → Step s t → Conserves c t
unfolding count
Step-Conserves c {s} h (starts d e) = register-Conserves c d s e h
Step-Conserves c {s} h (appends d e) = omega (arith, rw e at h, count-append c s.callbacks (d ∷ []))
Step-Conserves c {s} h (unregisters d e) = unregister-Conserves c d s h
Step-Conserves c {s} h checks = check-Conserves c s h
Step-Conserves c {s} h (sets n e) = h
Step-Conserves c {s} h (takes n e f) = omega (arith, h, count-append c s.taken s.callbacks)
Step-Conserves c {s} h (runs before d after e) =
    omega (arith, rw e at h, count-append c before (d ∷ after), count-append c before after)

-- In every reachable state a callback has been registered as often as it has run, has been unregistered,
-- is taken by a call of `cancel`, is in the list, or is about to be appended.
pub Reach-Conserves : (c : ℕ) {t : Token} → Reach t → Conserves c t
unfolding count
Reach-Conserves c here = refl
Reach-Conserves c (then_ r s) = Step-Conserves c (Reach-Conserves c r) s

-- Once the flag is set and no call of `cancel` has yet to take the list, nothing is in it.
abbrev pub IsDrained : Token → Type 0
IsDrained t = t.is_set ≡ true → t.takers ≡ 0 → (t.callbacks ≡ []) × (t.appending ≡ none)

if-IsDrained :
    (b : Bool) (t u : Token)
    → (b ≡ true → IsDrained t)
    → (b ≡ false → IsDrained u)
    → IsDrained (if b then t else u)
if-IsDrained true t u h k = h refl
if-IsDrained false t u h k = k refl

register-IsDrained : (d : ℕ) (t : Token) → IsDrained t → IsDrained (register d t)
unfolding register
register-IsDrained d t h = if-IsDrained t.is_set _ _ (λ s. h) (λ s a b. Bool-absurd t.is_set a s)

unregister-IsDrained : (d : ℕ) (t : Token) → IsDrained t → IsDrained (unregister d t)
unfolding unregister has
unregister-IsDrained d t h = elim (Bool-cases (has d t.callbacks)) [
  | inl s ↦ rw s (λ a b. cc (rw (h a b).0 at s))
  | inr s ↦ rw s h
]

check-IsDrained : (t : Token) → IsDrained t → IsDrained (check t)
unfolding check
check-IsDrained t h = if-IsDrained t.is_set _ _ (λ s. h) (λ s. h)

Step-IsDrained : {s t : Token} → IsDrained s → Step s t → IsDrained t
Step-IsDrained {s} h (starts d e) = register-IsDrained d s h
Step-IsDrained {s} h (appends d e) = λ a b. cc (e ∙ refl, (h a b).1)
Step-IsDrained {s} h (unregisters d e) = unregister-IsDrained d s h
Step-IsDrained {s} h checks = check-IsDrained s h
Step-IsDrained {s} h (sets n e) = λ a b. absurd (omega (arith, b))
Step-IsDrained {s} h (takes n e f) = λ a b. (refl, f)
Step-IsDrained {s} h (runs before d after e) = h

Reach-IsDrained : {t : Token} → Reach t → IsDrained t
Reach-IsDrained here = λ a b. (refl, refl)
Reach-IsDrained (then_ r s) = Step-IsDrained (Reach-IsDrained r) s

-- In every interleaving of registrations and cancellations: once the flag is set and the calls of
-- `cancel` that set it have taken and run their callbacks, every callback has run as often as it was
-- registered and not unregistered before; none is lost and none runs twice.
pub cancel-runs_all :
    (c : ℕ) {t : Token}
    → Reach t
    → t.is_set ≡ true
    → t.takers ≡ 0
    → t.taken ≡ []
    → count c t.registered ≡ count c t.ran + count c t.removed
unfolding count
cancel-runs_all c {t} r a b e =
    let (list, held_none) = Reach-IsDrained r a b in
    omega (arith, rw (e, list, held_none) at (Reach-Conserves c r))
