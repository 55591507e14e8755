-- ===== src/Sources/Settle.antt =====
-- sources.py: the second loop of `prepare_sources`, in which a source waits for the parent of its
-- cohort, and what reuse is allowed; and `prepare_sources` itself.
use dbtv.Common.{
  ℕ, ◌+◌, min, String, Bool, true, false, not, List, [], ◌∷◌, Option, none, some, if◌then◌else◌,
  ltb, nat_eq, lookup, insert,
}
use dbtv.Errors.{Result, ok, err, policy_error, internal_error, require, ◌>>=◌, ◌>>◌}
use dbtv.Errors.Calls.{continue}
use dbtv.Models.{SourceMapping, SourceMode, SnapshotAction, SnapshotDecision, DatasetSnapshot}
use dbtv.Config.{PolicySettings}
use dbtv.Config.Whole.{DbtvConfig}
use dbtv.State.{Db, Payload}
use dbtv.Store.{StoreSettings, Disk, get_or, given, is_local_mode}
use dbtv.Sources.Planned.{PlannedSource, unique_id}
use dbtv.Sources.Options.{CommandOptions}
use dbtv.Sources.Prepare.{mode_of, decide_for}

abbrev pub is_reuse : SnapshotAction → Bool
is_reuse SnapshotAction.reuse = true
is_reuse _ = false

-- `decision.snapshot`, where the action is to reuse it.
abbrev pub reused : SnapshotDecision → Option DatasetSnapshot
reused d = if is_reuse d.action then d.snapshot else none

abbrev pub with_decision : PlannedSource → SnapshotDecision → PlannedSource
with_decision source decision = record source { decision = decision }

abbrev pub redecided : SnapshotDecision → SnapshotAction → String → SnapshotDecision
redecided d action reason = record d { action = action; reason = reason; snapshot = none }

-- `by_id`: a later mapping of the same source replaces an earlier one.
unfoldable pub tags_of :
    List SourceMapping → List (String × List String) → List (String × List String)
tags_of [] found = found
tags_of (m ∷ ms) found = tags_of ms (insert m.source.unique_id m.tags found)

-- `options.max_rows or 2**63 - 1`.
abbrev pub row_maximum : PolicySettings → Option ℕ → ℕ
row_maximum policy none = min policy.max_rows_per_source 9223372036854775807
row_maximum policy (some n) =
    min policy.max_rows_per_source (if nat_eq n 0 then 9223372036854775807 else n)

abbrev pub observed_at : DatasetSnapshot → ℕ
observed_at s = get_or s.verified_at s.completed_at

-- The policy limits the age of a source with the tag, and the snapshot is older.
abbrev pub is_aged : PolicySettings → ℕ → DatasetSnapshot → String → Bool
is_aged policy now s tag = elim (lookup tag policy.max_cache_age_for_tags) [
  | none ↦ false
  | some age ↦ ltb (observed_at s + age) now
]

abbrev pub aged_action : SourceMode → SnapshotAction
aged_action mode = if is_local_mode mode then SnapshotAction.missing else SnapshotAction.refresh

module _ (policy : PolicySettings) (now : ℕ) (mode : SourceMode) (decision : SnapshotDecision)
    (s : DatasetSnapshot) where
  -- The loop over the tags.
  unfoldable pub check_ages : List String → PlannedSource → PlannedSource
  check_ages [] source = source
  check_ages (tag ∷ tags) source = check_ages tags (
      if is_aged policy now s tag
      then with_decision source
          (redecided decision (aged_action mode) "Source tag cache-age policy exceeded")
      else source)

-- The decisions of the second loop by source, with the index.
pub record Settling : Type 0 where
  pub resolved : List (String × PlannedSource)
  pub db : Db

abbrev pub or_missing {ℓ} : {A : Type ℓ} → Option A → Result A
or_missing none = err internal_error
or_missing (some a) = ok a

module _ (disk : Disk) (config : DbtvConfig) (tags : List (String × List String))
    (options : CommandOptions) (store : StoreSettings) (dataset : Option Payload)
    (materialize : PlannedSource → DatasetSnapshot → Result PlannedSource) where
  abbrev pub limit_reuse : PlannedSource → DatasetSnapshot → List String → Result PlannedSource
  limit_reuse source s names =
      require (not (ltb (row_maximum config.policy options.max_rows) s.row_count)) policy_error
      >> ok (
          check_ages config.policy store.now (mode_of dataset options) source.decision s names
            source)

  -- What the policy says of a snapshot that is to be reused.
  unfoldable pub check_reuse : PlannedSource → Result PlannedSource
  unfolding check_ages
  check_reuse source = elim (reused source.decision) [
    | none ↦ ok source
    | some s ↦ or_missing (lookup (unique_id source) tags) >>= limit_reuse source s
  ]

  abbrev pub decide_made : Db → Result PlannedSource → Result PlannedSource × Db
  decide_made db (err e) = (err e, db)
  decide_made db (ok made) =
      let (decision, db') =
        decide_for disk store options dataset made.decision.request made.settings db in
      (ok (with_decision made decision), db')

  -- A source of a cohort takes the decision of its parent, or is decided on with the parent's keys.
  abbrev pub follow_reused :
      PlannedSource → SnapshotAction → Db → Option DatasetSnapshot → Result PlannedSource × Db
  follow_reused source action db none = (
    ok (
        with_decision source
          (redecided source.decision action "Waiting for cohort parent capture")),
    db,
  )
  follow_reused source action db (some s) = decide_made db (materialize source s)

  abbrev pub follow_parent : PlannedSource → Db → Option PlannedSource → Result PlannedSource × Db
  follow_parent source db none = (err internal_error, db)
  follow_parent source db (some parent) =
      follow_reused source parent.decision.action db (reused parent.decision)

  abbrev pub follow : PlannedSource → Settling → Option String → Result PlannedSource × Db
  follow source p none = (ok source, p.db)
  follow source p (some id) = follow_parent source p.db (lookup id p.resolved)

  unfoldable pub await_parent : PlannedSource → Settling → Result PlannedSource × Db
  await_parent source p = follow source p (given source.cohort_parent)

  abbrev pub settled_with : Settling → Db → Result PlannedSource → Result (Unit {0}) × Settling
  settled_with p db (err e) = (err e, record p { db = db })
  settled_with p db (ok settled) =
      (ok tt, record { resolved = insert (unique_id settled) settled p.resolved; db = db })

  abbrev pub check_followed : Settling → Result PlannedSource × Db → Result (Unit {0}) × Settling
  check_followed p (err e, db) = settled_with p db (err e)
  check_followed p (ok source, db) = settled_with p db (check_reuse source)

  -- One round of the second loop.
  unfoldable pub settle_source : PlannedSource → Settling → Result (Unit {0}) × Settling
  unfolding await_parent check_reuse
  settle_source source p = check_followed p (await_parent source p)

  unfoldable pub settle_level : List PlannedSource → Settling → Result (Unit {0}) × Settling
  unfolding settle_source
  settle_level [] p = (ok tt, p)
  settle_level (source ∷ rest) p = continue (settle_source source p) (λ _. settle_level rest)

  unfoldable pub settle_levels : List (List PlannedSource) → Settling → Result (Unit {0}) × Settling
  unfolding settle_level
  settle_levels [] p = (ok tt, p)
  settle_levels (level ∷ rest) p = continue (settle_level level p) (λ _. settle_levels rest)
