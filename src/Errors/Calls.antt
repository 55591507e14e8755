-- ===== src/Errors/Calls.antt =====
-- Methods that change state and may raise: what they return, with the state that they leave.
use dbtv.Common.{◌≡◌, refl, ap}
use dbtv.Errors.{Result, ok, err, err-ne-ok}

module _ {ℓ κ μ} {A : Type ℓ} {B : Type κ} {S : Type μ} where
  -- The next statement, with the value and the state of the call before it.
  abbrev pub continue : Result A × S → (A → S → Result B × S) → Result B × S
  continue (err e, s) next = (err e, s)
  continue (ok a, s) next = next a s

  pub continue-eq-ok :
      (call : Result A × S) (next : A → S → Result B × S) {b : B} {s' : S}
      → continue call next ≡ (ok b, s')
      → (a : A) × (s : S) × (call ≡ (ok a, s)) × (next a s ≡ (ok b, s'))
  continue-eq-ok (err e, s) next h = err-ne-ok (ap (λ m. m.0) h)
  continue-eq-ok (ok a, s) next h = (a, s, refl, h)

module _ {ℓ μ ν} {A : Type ℓ} {S : Type μ} where
  -- What holds of the value and the state when a call returns, and of the state when it raises.
  abbrev pub Ends : (A → S → Type ν) → (S → Type ν) → Result A × S → Type ν
  Ends P E (err e, s) = E s
  Ends P E (ok a, s) = P a s

module _ {ℓ κ μ ν} {A : Type ℓ} {B : Type κ} {S : Type μ} where
  pub continue-Ends :
      (P : A → S → Type ν) (Q : B → S → Type ν) (E : S → Type ν) (call : Result A × S)
      (next : A → S → Result B × S)
      → Ends P E call
      → ((a : A) (s : S) → P a s → Ends Q E (next a s))
      → Ends Q E (continue call next)
  continue-Ends P Q E (err e, s) next h step = h
  continue-Ends P Q E (ok a, s) next h step = step a s h

module _ {ℓ κ μ ν} {A : Type ℓ} {B : Type κ} {S : Type μ} where
  -- What the calls keep of the state, whether they return or raise.
  pub continue-state :
      (R : S → Type ν) (call : Result A × S) (next : A → S → Result B × S)
      → R call.1
      → ((a : A) (s : S) → R s → R (next a s).1)
      → R (continue call next).1
  continue-state R (err e, s) next h step = h
  continue-state R (ok a, s) next h step = step a s h
