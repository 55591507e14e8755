-- ===== src/Policy/Allowed.antt =====
-- What the policy allows: an independent description of `evaluate_sampling`.
use dbtv.Common.{
  ℕ, ◌≤◌, String, ◌≡◌, refl, Bool, true, false, not, ◌&&◌, ◌||◌, Option, none, some, ◌↔◌, member,
  arith, Bool-cases, inl, inr, List, [], ◌∷◌, eq_iff, eq_refl, sym, ◌∙◌, Bool-absurd, some_inj,
  ◌==◌, ◌⊎◌, subst,
}
use dbtv.Errors.{ok, err, policy_error, require, DbtvError, ◌>>◌}
use dbtv.Models.{SamplingSpec, SamplingStrategy, full, FidelityMode, strict, warn, lossy}
use dbtv.Config.{PolicySettings}
use dbtv.Policy.Evaluate.{
  intersects, is_full, is_where, fidelity_eq, fidelity_differs, exceeds, evaluate_sampling,
}

pub record IsAllowed (settings : PolicySettings) (allow_full : Bool) (s : SamplingSpec)
    (tags : List String) (fidelity : Option FidelityMode) : Type 0 where
  no_denied_tag : (t : String) → member t tags ≡ true → member t settings.deny_source_tags ≡ false
  has_where :
      (t : String)
      → member t tags ≡ true
      → member t settings.require_explicit_where_for_tags ≡ true
      → is_where s.strategy ≡ true
  has_fidelity :
      (f g : FidelityMode) → fidelity ≡ some f → settings.require_fidelity ≡ some g → f ≡ g
  full_approved : s.strategy ≡ full → (settings.allow_full_source || allow_full) ≡ true
  within_limit : (n : ℕ) → s.limit ≡ some n → n ≤ settings.max_rows_per_source

or_left : (a b : Bool) → a ≡ true → (a || b) ≡ true
or_left a b h = rw h refl

or_right : (a b : Bool) → b ≡ true → (a || b) ≡ true
or_right true b h = refl
or_right false b h = h

not-false : (a : Bool) → not a ≡ false → a ≡ true
not-false true h = refl
not-false false h = cc

not-true : (a : Bool) → not a ≡ true → a ≡ false
not-true true h = cc
not-true false h = refl

intersects-false :
    (tags others : List String) (t : String)
    → intersects tags others ≡ false
    → member t tags ≡ true
    → member t others ≡ false
unfolding intersects member
intersects-false [] others t h m = cc
intersects-false (x ∷ tags) others t h m = elim (Bool-cases (member x others)) [
  | inl p ↦ cc (rw p at h)
  | inr p ↦ elim (Bool-cases (x == t)) [
    | inl e ↦ subst (λ z. member z others ≡ false) ((eq_iff x t).0 e) p
    | inr e ↦ intersects-false tags others t (rw p at h) (rw e at m)
  ]
]

intersects-false' :
    (tags others : List String)
    → ((t : String) → member t tags ≡ true → member t others ≡ false)
    → intersects tags others ≡ false
unfolding intersects member
intersects-false' [] others f = refl
intersects-false' (x ∷ tags) others f =
    rw
      (
        f x (or_left (x == x) (member x tags) (eq_refl x)),
        intersects-false' tags others λ t m. f t (or_right (x == t) (member t tags) m),
      )
      refl

exceeds-false :
    (l : Option ℕ) (maximum n : ℕ) → exceeds l maximum ≡ false → l ≡ some n → n ≤ maximum
exceeds-false none maximum n h e = cc
exceeds-false (some m) maximum n h e = ground (arith, some_inj e)

exceeds-false' :
    (l : Option ℕ) (maximum : ℕ) → ((n : ℕ) → l ≡ some n → n ≤ maximum) → exceeds l maximum ≡ false
exceeds-false' none maximum f = refl
exceeds-false' (some m) maximum f = ground (arith, f m refl)

fidelity_eq→≡ : (f g : FidelityMode) → fidelity_eq f g ≡ true → f ≡ g
fidelity_eq→≡ strict strict h = refl
fidelity_eq→≡ warn warn h = refl
fidelity_eq→≡ lossy lossy h = refl
fidelity_eq→≡ _ _ h = cc

fidelity_eq_self : (f : FidelityMode) → fidelity_eq f f ≡ true
fidelity_eq_self strict = refl
fidelity_eq_self warn = refl
fidelity_eq_self lossy = refl

fidelity_differs-false :
    (o p : Option FidelityMode) (f g : FidelityMode)
    → fidelity_differs o p ≡ false
    → o ≡ some f
    → p ≡ some g
    → f ≡ g
fidelity_differs-false o p f g h eo ep =
    fidelity_eq→≡ f g (not-false (fidelity_eq f g) (rw (eo, ep) at h))

fidelity_differs-false' :
    (o p : Option FidelityMode)
    → ((f g : FidelityMode) → o ≡ some f → p ≡ some g → f ≡ g)
    → fidelity_differs o p ≡ false
fidelity_differs-false' (some f) (some g) h = rw (h f g refl refl, fidelity_eq_self g) refl
fidelity_differs-false' (some f) none h = refl
fidelity_differs-false' none p h = refl

full_test : (g : SamplingStrategy) (b : Bool) → (not (is_full g) || b) ≡ true → g ≡ full → b ≡ true
full_test g b h e = rw e at h

test_full :
    (g : SamplingStrategy) (b : Bool) → (g ≡ full → b ≡ true) → (not (is_full g) || b) ≡ true
test_full full b h = h refl
test_full _ b h = refl

five_requires :
    (a b c d e : Bool) (p : DbtvError)
    → (require a p >> require b p >> require c p >> require d p >> require e p)
      ≡ require (a && b && c && d && e) p
five_requires false b c d e p = refl
five_requires true false c d e p = refl
five_requires true true false d e p = refl
five_requires true true true false e p = refl
five_requires true true true true e p = refl

five_tests :
    (a b c d e : Bool) (p : DbtvError)
    → require (a && b && c && d && e) p ≡ ok tt
    → (a ≡ true) × (b ≡ true) × (c ≡ true) × (d ≡ true) × (e ≡ true)
five_tests true true true true true p h = (refl, refl, refl, refl, refl)
five_tests _ _ _ _ _ p h = cc

require-cases : (b : Bool) (p : DbtvError) → (require b p ≡ ok tt) ⊎ (require b p ≡ err p)
require-cases true p = inl refl
require-cases false p = inr refl

module _ (settings : PolicySettings) (allow_full : Bool) (s : SamplingSpec) (tags : List String)
    (fidelity : Option FidelityMode) where
  where_test :
      IsAllowed settings allow_full s tags fidelity
      → (not (intersects tags settings.require_explicit_where_for_tags) || is_where s.strategy)
        ≡ true
  where_test h = elim (Bool-cases (is_where s.strategy)) [
    | inl w ↦ or_right (not (intersects tags settings.require_explicit_where_for_tags)) _ w
    | inr w ↦
        rw
          (intersects-false' tags settings.require_explicit_where_for_tags λ t m.
            elim (Bool-cases (member t settings.require_explicit_where_for_tags)) [
              | inl r ↦ Bool-absurd (is_where s.strategy) (h.has_where t m r) w
              | inr r ↦ r
            ])
          refl
  ]

  has_where_of :
      (not (intersects tags settings.require_explicit_where_for_tags) || is_where s.strategy) ≡ true
      → (t : String) → member t tags ≡ true
      → member t settings.require_explicit_where_for_tags ≡ true
      → is_where s.strategy ≡ true
  has_where_of h t m r =
      elim (Bool-cases (intersects tags settings.require_explicit_where_for_tags)) [
        | inl i ↦ rw i at h
        | inr i ↦
            Bool-absurd (member t settings.require_explicit_where_for_tags) r
              (intersects-false tags _ t i m)
      ]

  IsAllowed→ok :
      IsAllowed settings allow_full s tags fidelity
      → evaluate_sampling settings allow_full s tags fidelity ≡ ok tt
  unfolding evaluate_sampling
  IsAllowed→ok h =
      rw
        (
          five_requires _ _ _ _ _ policy_error,
          intersects-false' tags settings.deny_source_tags h.no_denied_tag,
          where_test h,
          fidelity_differs-false' fidelity settings.require_fidelity h.has_fidelity,
          test_full s.strategy (settings.allow_full_source || allow_full) h.full_approved,
          exceeds-false' s.limit settings.max_rows_per_source h.within_limit,
        )
        refl

  ok→IsAllowed :
      evaluate_sampling settings allow_full s tags fidelity ≡ ok tt
      → IsAllowed settings allow_full s tags fidelity
  unfolding evaluate_sampling
  ok→IsAllowed h =
      let t = five_tests _ _ _ _ _ policy_error (sym (five_requires _ _ _ _ _ policy_error) ∙ h) in
      record {
        no_denied_tag = λ k m. intersects-false tags _ k (not-true _ t.0) m;
        has_where = has_where_of t.1;
        has_fidelity =
            λ f g. fidelity_differs-false fidelity settings.require_fidelity f g (not-true _ t.2);
        full_approved = full_test s.strategy (settings.allow_full_source || allow_full) t.3;
        within_limit = λ n. exceeds-false s.limit settings.max_rows_per_source n (not-true _ t.4);
      }

  raises :
      (evaluate_sampling settings allow_full s tags fidelity ≡ ok tt)
      ⊎ (evaluate_sampling settings allow_full s tags fidelity ≡ err policy_error)
  unfolding evaluate_sampling
  raises = rw (five_requires _ _ _ _ _ policy_error) (require-cases _ policy_error)

  -- The policy accepts a sampling exactly if no tag of the source is denied, a source with a restricted
  -- tag is sampled by a predicate, the fidelity is the required one, a full extraction is approved, and
  -- a limit is within the cap; otherwise it raises a policy error.
  pub evaluate_sampling_iff :
      ((evaluate_sampling settings allow_full s tags fidelity ≡ ok tt)
        ↔ IsAllowed settings allow_full s tags fidelity)
      × ((evaluate_sampling settings allow_full s tags fidelity ≡ ok tt)
          ⊎ (evaluate_sampling settings allow_full s tags fidelity ≡ err policy_error))
  evaluate_sampling_iff = ((ok→IsAllowed, IsAllowed→ok), raises)
