-- ===== src/Cancellation/Token.antt =====
-- core/cancellation.py: `CancellationToken` as a step relation. A step is what one thread does at
-- once; the flag is read and set without the lock, the list of callbacks under it. A callback is a
-- number; the exceptions that callbacks raise are dropped by `cancel`.
use dbtv.Common.{
  ℕ, suc, ◌≡◌, Bool, true, false, List, [], ◌∷◌, ◌++◌, Option, none, some, if◌then◌else◌, nat_eq,
}

pub record Token : Type 0 where
  pub is_set : Bool
  pub callbacks : List ℕ
  -- The registration that holds the lock, has seen the flag unset and is about to append.
  pub appending : Option ℕ
  -- Calls of `cancel` that have seen the flag unset, and those that have set it and not yet the lock.
  pub setters : ℕ
  pub takers : ℕ
  -- Callbacks that calls of `cancel` have taken and not yet run.
  pub taken : List ℕ
  -- What has happened: the registrations, the callbacks run and those unregistered before that.
  pub registered : List ℕ
  pub ran : List ℕ
  pub removed : List ℕ

abbrev pub fresh : Token
fresh = record {
  is_set = false;
  callbacks = [];
  appending = none;
  setters = 0;
  takers = 0;
  taken = [];
  registered = [];
  ran = [];
  removed = [];
}

-- `callback in callbacks`, and `callbacks.remove(callback)`.
unfoldable pub has : ℕ → List ℕ → Bool
has c [] = false
has c (x ∷ xs) = if nat_eq x c then true else has c xs

unfoldable pub remove : ℕ → List ℕ → List ℕ
remove c [] = []
remove c (x ∷ xs) = if nat_eq x c then xs else x ∷ remove c xs

-- `register`, under the lock, up to the append.
unfoldable pub register : ℕ → Token → Token
register c t =
    if t.is_set
    then record t { registered = c ∷ t.registered; ran = c ∷ t.ran }
    else record t { registered = c ∷ t.registered; appending = some c }

unfoldable pub unregister : ℕ → Token → Token
unfolding has remove
unregister c t =
    if has c t.callbacks
    then record t { callbacks = remove c t.callbacks; removed = c ∷ t.removed }
    else t

-- The first test of `cancel`.
unfoldable pub check : Token → Token
check t = if t.is_set then t else record t { setters = suc t.setters }

pub data Step : Token → Token → Type 0 where
  starts : {t : Token} (c : ℕ) → t.appending ≡ none → Step t (register c t)
  appends :
      {t : Token} (c : ℕ)
      → t.appending ≡ some c
      → Step t (record t { callbacks = t.callbacks ++ c ∷ []; appending = none })
  unregisters : {t : Token} (c : ℕ) → t.appending ≡ none → Step t (unregister c t)
  checks : {t : Token} → Step t (check t)
  sets :
      {t : Token} (n : ℕ)
      → t.setters ≡ suc n
      → Step t (record t { setters = n; is_set = true; takers = suc t.takers })
  takes :
      {t : Token} (n : ℕ)
      → t.takers ≡ suc n
      → t.appending ≡ none
      → Step t (record t { takers = n; callbacks = []; taken = t.taken ++ t.callbacks })
  runs :
      {t : Token} (before : List ℕ) (c : ℕ) (after : List ℕ)
      → t.taken ≡ before ++ c ∷ after
      → Step t (record t { taken = before ++ after; ran = c ∷ t.ran })

pub data Reach : Token → Type 0 where
  here : Reach fresh
  then_ : {s t : Token} → Reach s → Step s t → Reach t
