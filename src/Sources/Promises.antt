-- ===== src/Sources/Promises.antt =====
-- What `prepare_sources` promises: local modes ask for no refresh, and a snapshot is reused within the
-- limits of the policy only.
use dbtv.Common.{
  ℕ, ◌≤◌, String, ◌≡◌, ◌≢◌, refl, subst, sym, ap, ◌∙◌, Bool, true, false, List, [], Option, none,
  some, inl, inr, Option-cases, lookup, All, some_inj,
}
use dbtv.Errors.{Result, ok, err, err-ne-ok}
use dbtv.Models.{SnapshotAction, SnapshotDecision, DatasetSnapshot}
use dbtv.Models.Runs.{ExecutionPlan}
use dbtv.Config.Whole.{DbtvConfig}
use dbtv.State.{Db, Payload}
use dbtv.Store.{StoreSettings, Disk, is_local_mode, decide}
use dbtv.Store.Decisions.{IsReusable, decide-reuse, decide-local_mode}
use dbtv.Sources.Planned.{PlannedSource, unique_id}
use dbtv.Sources.Options.{CommandOptions}
use dbtv.Sources.Prepare.{Surroundings, mode_of, named_snapshot, decide_for}
use dbtv.Sources.Settle.{
  reused, with_decision, redecided, check_reuse, tags_of, row_maximum, is_aged, aged_action,
}
use dbtv.Sources.Preparation.{SourcePreparation, Given, read_options, prepare_read, prepare_sources}
use dbtv.Sources.Checked.{
  effective_mode, check_ages-cases, check_reuse-Checked, check_reuse-none, check_reuse-local_mode,
  read_options-mode, conclude-request, reused-some,
}
use dbtv.Sources.Settled.{prepare_sources-All}
use dbtv.Sources.Cohorts.{materialize_cohort}

-- A predicate of the snapshot, if there is one.
abbrev pub WhenSome : (DatasetSnapshot → Type 0) → Option DatasetSnapshot → Type 0
WhenSome R none = Unit
WhenSome R (some s) = R s

-- What the policy demands of a snapshot that is reused.
pub record IsAllowed (config : DbtvConfig) (options : CommandOptions) (store : StoreSettings)
    (tags : List (String × List String)) (disk : Disk) (source : PlannedSource)
    (s : DatasetSnapshot) : Type 0 where
  pub reusable :
      IsReusable store disk source.decision.request source.settings.connector
        (effective_mode options)
        s
  pub rows : s.row_count ≤ row_maximum config.policy options.max_rows
  pub names : List String
  pub tagged : lookup (unique_id source) tags ≡ some names
  pub ages : All (λ tag. is_aged config.policy store.now s tag ≡ false) names

WhenSome-intro :
    (R : DatasetSnapshot → Type 0) (o : Option DatasetSnapshot)
    → ((s : DatasetSnapshot) → o ≡ some s → R s)
    → WhenSome R o
WhenSome-intro R none h = tt
WhenSome-intro R (some s) h = h s refl

WhenSome-elim :
    (R : DatasetSnapshot → Type 0) (o : Option DatasetSnapshot) (s : DatasetSnapshot)
    → WhenSome R o
    → o ≡ some s
    → R s
WhenSome-elim R none s w h = cc
WhenSome-elim R (some x) s w h = subst R (some_inj h) w

redecided-none :
    (R : DatasetSnapshot → Type 0) (d : SnapshotDecision) (action : SnapshotAction)
    (reason : String)
    → WhenSome R (reused (redecided d action reason))
redecided-none R d SnapshotAction.reuse reason = tt
redecided-none R d SnapshotAction.refresh reason = tt
redecided-none R d SnapshotAction.missing reason = tt

-- A decision to reuse, for the request that it carries.
abbrev Matches : StoreSettings → Disk → CommandOptions → Option Payload → PlannedSource → Type 0
Matches store disk options dataset source =
    WhenSome
      (IsReusable store disk source.decision.request source.settings.connector
        (mode_of dataset options))
      (reused source.decision)

decide_for-Matches :
    (store : StoreSettings) (disk : Disk) (options : CommandOptions) (dataset : Option Payload)
    (source : PlannedSource) (db : Db)
    → Matches store disk options dataset (
        with_decision source
          (decide_for disk store options dataset source.decision.request source.settings db).0)
unfolding decide
decide_for-Matches store disk options dataset source db = WhenSome-intro _ (reused outcome) (λ s h.
    let (action, carried) = reused-some outcome h in
    let (t, found, good) =
      decide-reuse store disk source.decision.request source.settings.connector
        (mode_of dataset options)
        (named_snapshot dataset options source.decision.request.source.unique_id) db action in
    subst (λ q. IsReusable store disk q source.settings.connector (mode_of dataset options) s)
      (sym asked)
      (subst
        (IsReusable store disk source.decision.request source.settings.connector
          (mode_of dataset options))
        (some_inj (sym found ∙ carried)) good))
  where
    outcome : SnapshotDecision
    outcome = (decide_for disk store options dataset source.decision.request source.settings db).0

    asked : outcome.request ≡ source.decision.request
    asked = conclude-request store source.decision.request _ _ (mode_of dataset options) _

abbrev pub AllowedSource :
    Disk
    → DbtvConfig
    → List (String × List String)
    → CommandOptions
    → StoreSettings
    → PlannedSource
    → Type 0
AllowedSource disk config found options store source =
    WhenSome (IsAllowed config options store found disk source) (reused source.decision)

module _ (disk : Disk) (config : DbtvConfig) (found : List (String × List String))
    (options : CommandOptions) (store : StoreSettings) (dataset : Option Payload)
    (make : PlannedSource → DatasetSnapshot → Result PlannedSource)
    (mode : mode_of dataset options ≡ effective_mode options) where
  abbrev Here : PlannedSource → Type 0
  Here = AllowedSource disk config found options store

  check_reuse-Allowed :
      (source settled : PlannedSource)
      → Matches store disk options dataset source
      → check_reuse disk config found options store dataset make source ≡ ok settled
      → Here settled
  check_reuse-Allowed source settled p h = elim (Option-cases (reused source.decision)) [
    | inl n ↦
        subst Here
          (check_reuse-none disk config found options store dataset make source settled n h)
          (WhenSome-intro _ (reused source.decision) (λ s e. cc (n, e)))
    | inr (s, r) ↦
        let c =
          check_reuse-Checked disk config found options store dataset make source settled r h in
        subst Here c.same
          (elim (check_ages-cases config.policy store.now (mode_of dataset options) source.decision
            s c.names source) [
              | inl e ↦ subst Here (sym e.0) (
                  WhenSome-intro _ (reused source.decision) (λ t q.
                    subst (IsAllowed config options store found disk source) (some_inj (sym r ∙ q))
                      (record {
                        reusable =
                            subst
                              (λ m.
                                IsReusable store disk source.decision.request
                                  source.settings.connector m s)
                              mode (WhenSome-elim _ (reused source.decision) s p r);
                        rows = c.rows;
                        names = c.names;
                        tagged = c.tagged;
                        ages = e.1;
                      })))
              | inr e ↦ subst Here (sym e) (
                  redecided-none _ source.decision (aged_action (mode_of dataset options))
                    "Source tag cache-age policy exceeded")
            ])
  ]

module _ (around : Surroundings) (same : PlannedSource → PlannedSource → Bool) (config : DbtvConfig)
    (options : CommandOptions) (now : ℕ) (plan : ExecutionPlan) (db : Db) where
  abbrev tags : List (String × List String)
  tags = tags_of plan.source_mappings []

  abbrev make : PlannedSource → DatasetSnapshot → Result PlannedSource
  make = materialize_cohort around.show around.execute around.hash_cohort around.disk.join

  read_first :
      (prep : SourcePreparation) (db' : Db)
      → prepare_sources around same config options now plan db ≡ (ok prep, db')
      → (g : Given) × (read_options config plan.source_mappings options now db ≡ ok g)
  unfolding prepare_sources
  read_first prep db' h = first (read_options config plan.source_mappings options now db) h
    where
      first :
          (r : Result Given)
          → ◌≡◌ {A = Result SourcePreparation × Db}
              (prepare_read around same config options now plan db r)
              (ok prep, db')
          → (g : Given) × (r ≡ ok g)
      first (err e) h = err-ne-ok (ap (λ x. x.0) h)
      first (ok g) h = (g, refl)

  -- In the offline and the cached mode, and for a dataset, no source is to be captured again.
  pub prepare_sources-local_mode :
      (prep : SourcePreparation) (db' : Db)
      → is_local_mode (effective_mode options) ≡ true
      → prepare_sources around same config options now plan db ≡ (ok prep, db')
      → All (λ s. s.decision.action ≢ SnapshotAction.refresh) prep.sources
  unfolding decide
  prepare_sources-local_mode prep db' l h =
      let (g, r) = read_first prep db' h in
      let m : is_local_mode (mode_of g.dataset options) ≡ true =
        rw (read_options-mode config plan.source_mappings options now db r) l in
      (prepare_sources-All (λ s. s.decision.action ≢ SnapshotAction.refresh)
        (λ s. s.decision.action ≢ SnapshotAction.refresh) around same config options now plan g
        (λ source db''.
          decide-local_mode g.store around.disk source.decision.request source.settings.connector
            (mode_of g.dataset options)
            (named_snapshot g.dataset options source.decision.request.source.unique_id) db'' m)
        (λ source parent reason q. q)
        (λ source settled p c.
          check_reuse-local_mode around.disk config tags options g.store g.dataset make source
            settled m p c)
        db r h).1

  -- A snapshot is reused only if it was taken for the same request and provider, is valid on the disk,
  -- has not expired unless the mode is local, holds no more rows than the policy and the options allow,
  -- and is no older than the policy allows for any tag of its source.
  pub prepare_sources-Allowed :
      (prep : SourcePreparation) (db' : Db)
      → prepare_sources around same config options now plan db ≡ (ok prep, db')
      → All (AllowedSource around.disk config tags options prep.store) prep.sources
  prepare_sources-Allowed prep db' h =
      let (g, r) = read_first prep db' h in
      let (store, all) =
        prepare_sources-All (Matches g.store around.disk options g.dataset)
          (AllowedSource around.disk config tags options g.store) around same config options now
          plan g
          (λ source db''. decide_for-Matches g.store around.disk options g.dataset source db'')
          (λ source parent reason q. redecided-none _ source.decision parent.decision.action reason)
          (λ source settled p c.
            check_reuse-Allowed around.disk config tags options g.store g.dataset make
              (read_options-mode config plan.source_mappings options now db r) source settled p c)
          db r h in
      subst (λ st. All (AllowedSource around.disk config tags options st) prep.sources) (sym store)
        all
