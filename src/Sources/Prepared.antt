-- ===== src/Sources/Prepared.antt =====
-- What holds of every source that `prepare_sources` returns.
use dbtv.Common.{
  ℕ, zero, suc, String, ◌≡◌, refl, subst, Bool, not, List, [], ◌∷◌, map, Option, none, some, inl,
  inr, lookup, All, All-keep, AllValues, AllValues-insert, AllValues-lookup, List-cases, any_of,
}
use dbtv.Errors.{Result, ok, err, >>=-eq-ok, ok_inj, err-ne-ok}
use dbtv.Errors.Calls.{Ends, continue-Ends}
use dbtv.Models.{SnapshotAction, DatasetSnapshot, SourceMapping}
use dbtv.Config.{DataProfile}
use dbtv.Config.Whole.{DbtvConfig}
use dbtv.State.{Db, Payload}
use dbtv.Store.{StoreSettings, Disk, given}
use dbtv.Sources.Planned.{PlannedSource, unique_id, is_waiting, ready, waiting, levels}
use dbtv.Sources.Options.{CommandOptions}
use dbtv.Sources.Prepare.{
  Surroundings, Requested, Preparing, decide_for, plan_request, request_source, decide_asked,
  decide_source, decide_sources,
}
use dbtv.Sources.Settle.{
  reused, with_decision, redecided, check_reuse, decide_made, follow_reused, follow_parent, follow,
  settled_with, check_followed, await_parent, Settling, settle_source, settle_level, settle_levels,
}

module _ (P : PlannedSource → Type 0) (same : PlannedSource → PlannedSource → Bool) where
  pub levels-All :
      (fuel : ℕ) (xs : List PlannedSource) {ls : List (List PlannedSource)}
      → All P xs
      → levels same fuel xs ≡ ok ls
      → All (All P) ls
  unfolding levels
  levels-All fuel [] h e = subst (All (All P)) (ok_inj e) tt
  levels-All zero (x ∷ xs) h e = err-ne-ok e
  levels-All (suc fuel) (x ∷ xs) h e = elim (List-cases (ready (x ∷ xs))) [
    | inl r ↦ err-ne-ok (rw (r, levels) at e)
    | inr (r, rs, q) ↦
        let (later, found, rest) =
          >>=-eq-ok (levels same fuel (waiting same (x ∷ xs))) (λ ls. ok ((r ∷ rs) ∷ ls))
            (rw (q, levels) at e) in
        subst (All (All P)) (ok_inj rest) (
          subst (All P) q
              (All-keep P (λ s. not (is_waiting (map unique_id (x ∷ xs)) s)) (x ∷ xs) h),
          levels-All fuel (waiting same (x ∷ xs))
              (All-keep P (λ s. not (any_of (same s) (ready (x ∷ xs)))) (x ∷ xs) h) found,
        )
  ]

Ends-any {ℓ μ} : {A : Type ℓ} {S : Type μ} (m : Result A × S) → Ends (λ a s. Unit {0}) (λ s. Unit) m
Ends-any (err e, s) = tt
Ends-any (ok a, s) = tt

-- The result of a call, where it is known.
pub Ends-ok {ℓ μ ν} :
    {A : Type ℓ} {S : Type μ} (P : A → S → Type ν) (E : S → Type ν) (m : Result A × S) {a : A}
    {s : S}
    → Ends P E m
    → m ≡ (ok a, s)
    → P a s
Ends-ok P E m h e = subst (Ends P E) e h

-- `P` holds of every decision of the store and of a source that waits, `Q` after the check of reuse.
module _ (P Q : PlannedSource → Type 0) (disk : Disk) (config : DbtvConfig)
    (tags : List (String × List String)) (options : CommandOptions) (store : StoreSettings)
    (dataset : Option Payload)
    (materialize : PlannedSource → DatasetSnapshot → Result PlannedSource)
    (decided : (source : PlannedSource) (db : Db)
      → P (
          with_decision source
            (decide_for disk store options dataset source.decision.request source.settings db).0))
    (waits : (source parent : PlannedSource) (reason : String)
      → Q parent
      → P (with_decision source (redecided source.decision parent.decision.action reason)))
    (checked : (source settled : PlannedSource)
      → P source
      → check_reuse disk config tags options store dataset materialize source ≡ ok settled
      → Q settled) where
  decide_made-Ends :
      (db : Db) (m : Result PlannedSource)
      → Ends
          (λ s _. P s)
          (λ _. Unit)
          (decide_made disk config tags options store dataset materialize db m)
  decide_made-Ends db (err e) = tt
  decide_made-Ends db (ok made) = decided made db

  follow_parent-Ends :
      (source parent : PlannedSource) (db : Db) (o : Option DatasetSnapshot)
      → Q parent
      → Ends
          (λ s _. P s)
          (λ _. Unit)
          (follow_reused disk config tags options store dataset materialize source
            parent.decision.action db o)
  follow_parent-Ends source parent db none q =
      waits source parent "Waiting for cohort parent capture" q
  follow_parent-Ends source parent db (some s) q = decide_made-Ends db (materialize source s)

  follow-Ends :
      (source : PlannedSource) (p : Settling) (o : Option String)
      → P source
      → AllValues Q p.resolved
      → Ends
          (λ s _. P s)
          (λ _. Unit)
          (follow disk config tags options store dataset materialize source p o)
  follow-Ends source p none h q = h
  follow-Ends source p (some id) h q =
      found (lookup id p.resolved) (λ parent l. AllValues-lookup Q id p.resolved q l)
    where
      found :
          (o : Option PlannedSource)
          → ((parent : PlannedSource) → o ≡ some parent → Q parent)
          → Ends
              (λ s _. P s)
              (λ _. Unit)
              (follow_parent disk config tags options store dataset materialize source p.db o)
      found none k = tt
      found (some parent) k =
          follow_parent-Ends source parent p.db (reused parent.decision) (k parent refl)

  abbrev Settled : Settling → Type 0
  Settled p = AllValues Q p.resolved

  abbrev settle : PlannedSource → Settling → Result (Unit {0}) × Settling
  settle = settle_source disk config tags options store dataset materialize

  settled_with-Ends :
      (p : Settling) (db : Db) (c : Result PlannedSource)
      → ((t : PlannedSource) → c ≡ ok t → Q t)
      → Settled p
      → Ends
          (λ _ q. Settled q)
          (λ _. Unit)
          (settled_with disk config tags options store dataset materialize p db c)
  settled_with-Ends p db (err e) k q = tt
  settled_with-Ends p db (ok t) k q = AllValues-insert Q (unique_id t) t p.resolved (k t refl) q

  check_followed-Ends :
      (p : Settling) (m : Result PlannedSource × Db)
      → Ends (λ s _. P s) (λ _. Unit) m
      → Settled p
      → Ends
          (λ _ q. Settled q)
          (λ _. Unit)
          (check_followed disk config tags options store dataset materialize p m)
  check_followed-Ends p (err e, db) h q = tt
  check_followed-Ends p (ok s, db) h q =
      settled_with-Ends p db (check_reuse disk config tags options store dataset materialize s)
        (λ t. checked s t h) q

  settle_source-Ends :
      (source : PlannedSource) (p : Settling)
      → P source
      → Settled p
      → Ends (λ _ q. Settled q) (λ _. Unit) (settle source p)
  unfolding settle_source await_parent
  settle_source-Ends source p h q =
      check_followed-Ends p
        (await_parent disk config tags options store dataset materialize source p)
        (follow-Ends source p (given source.cohort_parent) h q) q

  settle_level-Ends :
      (level : List PlannedSource) (p : Settling)
      → All P level
      → Settled p
      → Ends
          (λ _ q. Settled q)
          (λ _. Unit)
          (settle_level disk config tags options store dataset materialize level p)
  unfolding settle_level
  settle_level-Ends [] p h q = q
  settle_level-Ends (source ∷ rest) p h q =
      continue-Ends (λ _ r. Settled r) (λ _ r. Settled r) (λ _. Unit) (settle source p)
        (λ _. settle_level disk config tags options store dataset materialize rest)
        (settle_source-Ends source p h.0 q) (λ _ r s. settle_level-Ends rest r h.1 s)

  pub settle_levels-Ends :
      (levels : List (List PlannedSource)) (p : Settling)
      → All (All P) levels
      → Settled p
      → Ends
          (λ _ q. Settled q)
          (λ _. Unit)
          (settle_levels disk config tags options store dataset materialize levels p)
  unfolding settle_levels
  settle_levels-Ends [] p h q = q
  settle_levels-Ends (level ∷ rest) p h q =
      continue-Ends (λ _ r. Settled r) (λ _ r. Settled r) (λ _. Unit)
        (settle_level disk config tags options store dataset materialize level p)
        (λ _. settle_levels disk config tags options store dataset materialize rest)
        (settle_level-Ends level p h.0 q) (λ _ r s. settle_levels-Ends rest r h.1 s)

module _ (P : PlannedSource → Type 0) (around : Surroundings) (config : DbtvConfig)
    (invocation_id : String) (mappings : List SourceMapping) (options : CommandOptions)
    (store : StoreSettings) (profile : DataProfile) (dataset : Option Payload)
    (decided : (source : PlannedSource) (db : Db)
      → P (
          with_decision source
            (decide_for around.disk store options dataset source.decision.request source.settings
              db).0)) where
  abbrev plan : SourceMapping → Preparing → Result PlannedSource × Preparing
  plan = decide_source around config invocation_id mappings options store profile dataset

  decide_asked-Ends :
      (p : Preparing) (r : Result (Requested × List (String × String)))
      → Ends
          (λ s _. P s)
          (λ _. Unit)
          (decide_asked around config invocation_id mappings options store profile dataset p r)
  decide_asked-Ends p (err e) = tt
  decide_asked-Ends p (ok (asked, scopes)) =
      decided
        (plan_request around config invocation_id mappings options store profile dataset asked
          (record {
            request = asked.request;
            action = SnapshotAction.missing;
            reason = "";
            snapshot = none;
          }))
        p.db

  decide_source-Ends :
      (mapping : SourceMapping) (p : Preparing) → Ends (λ s _. P s) (λ _. Unit) (plan mapping p)
  unfolding decide_source
  decide_source-Ends mapping p = decide_asked-Ends p (
      request_source around config invocation_id mappings options store profile dataset mapping
        p.scopes)

  pub decide_sources-Ends :
      (todo : List SourceMapping) (p : Preparing)
      → Ends
          (λ ss _. All P ss)
          (λ _. Unit)
          (decide_sources around config invocation_id mappings options store profile dataset todo p)
  unfolding decide_sources
  decide_sources-Ends [] p = tt
  decide_sources-Ends (m ∷ rest) p =
      continue-Ends (λ s _. P s) (λ ss _. All P ss) (λ _. Unit) (plan m p) _
        (decide_source-Ends m p)
        (λ s p' h.
          continue-Ends (λ ss _. All P ss) (λ ss _. All P ss) (λ _. Unit)
            (decide_sources around config invocation_id mappings options store profile dataset rest
              p')
            (λ later p''. (ok (s ∷ later), p'')) (decide_sources-Ends rest p')
            (λ ss p'' hs. (h, hs)))
