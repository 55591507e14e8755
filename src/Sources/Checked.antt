-- ===== src/Sources/Checked.antt =====
-- What the check of reuse and the first statements of `prepare_sources` return.
use dbtv.Common.{
  ℕ, ◌≤◌, String, ◌≡◌, ◌≢◌, ◌⊎◌, refl, subst, sym, true, false, not, List, [], ◌∷◌, Option, none,
  some, inl, inr, Bool-cases, Option-cases, lookup, All, if◌then◌else◌, ltb, arith,
}
use dbtv.Errors.{Result, ok, config_error, ◌>>=◌, ◌>>◌, >>=-eq-ok, ok_inj, policy_error, require}
use dbtv.Models.{
  SnapshotAction, SnapshotDecision, DatasetSnapshot, SourceMapping, SnapshotRequest, SourceMode,
  offline,
}
use dbtv.Config.{DataProfile, PolicySettings}
use dbtv.Config.Whole.{DbtvConfig}
use dbtv.State.{Db, Payload, get_dataset}
use dbtv.Store.{StoreSettings, Disk, given, is_local_mode, conclude}
use dbtv.Sources.Planned.{PlannedSource, unique_id}
use dbtv.Sources.Options.{CommandOptions}
use dbtv.Sources.Prepare.{mode_of, is_some}
use dbtv.Sources.Settle.{
  reused, with_decision, redecided, check_reuse, check_ages, limit_reuse, or_missing, row_maximum,
  is_aged, aged_action,
}
use dbtv.Sources.Preparation.{
  Given, is_conflicting, find_profile, first_ttl, find_dataset, store_of, read_options,
}

-- Snapshots are taken as in the offline mode if a dataset is given.
abbrev pub effective_mode : CommandOptions → SourceMode
effective_mode options = if is_some (given options.dataset_id) then offline else options.source_mode

module _ (policy : PolicySettings) (now : ℕ) (mode : SourceMode) (d : SnapshotDecision)
    (s : DatasetSnapshot) where
  abbrev pub aged : PlannedSource → PlannedSource
  aged source =
      with_decision source (redecided d (aged_action mode) "Source tag cache-age policy exceeded")

  pub check_ages-cases :
      (names : List String) (source : PlannedSource)
      → ((check_ages policy now mode d s names source ≡ source)
          × All (λ tag. is_aged policy now s tag ≡ false) names)
        ⊎ (check_ages policy now mode d s names source ≡ aged source)
  unfolding check_ages
  check_ages-cases [] source = inl (refl, tt)
  check_ages-cases (tag ∷ names) source = elim (Bool-cases (is_aged policy now s tag)) [
    | inl e ↦ rw e (elim (check_ages-cases names (aged source)) [ inl h ↦ inr h.0 | inr h ↦ inr h ])
    | inr e ↦
        rw e
          (elim (check_ages-cases names source) [ inl h ↦ inl (h.0, (refl, h.1)) | inr h ↦ inr h ])
  ]

found_mode :
    (options : CommandOptions) (db : Db) (dataset : Option Payload) (o : Option String)
    → elim o [ none ↦ ok none | some id ↦ get_dataset id db >>= λ payload. ok (some payload) ]
      ≡ ok dataset
    → mode_of dataset options ≡ (if is_some o then offline else options.source_mode)
found_mode options db dataset none h =
    subst (λ d. mode_of d options ≡ options.source_mode) (ok_inj h) refl
found_mode options db dataset (some id) h =
    let (payload, _, same) = >>=-eq-ok (get_dataset id db) (λ payload. ok (some payload)) h in
    subst (λ d. mode_of d options ≡ offline) (ok_inj same) refl

-- What the first statements return.
pub read_options-mode :
    (config : DbtvConfig) (mappings : List SourceMapping) (options : CommandOptions) (now : ℕ)
    (db : Db) {g : Given}
    → read_options config mappings options now db ≡ ok g
    → mode_of g.dataset options ≡ effective_mode options
unfolding read_options
read_options-mode config mappings options now db h =
    let (profile, _, next) =
      >>=-eq-ok (require (not (is_conflicting options)) config_error >> find_profile config options)
        (λ profile. first_ttl config options >>= after profile) h in
    let (ttl, _, rest) = >>=-eq-ok (first_ttl config options) (after profile) next in
    let (dataset, found, last) =
      >>=-eq-ok (find_dataset options db) (λ dataset. given_with profile ttl dataset) rest in
    subst (λ (r : Given). mode_of r.dataset options ≡ effective_mode options) (ok_inj last)
      (found_mode options db dataset (given options.dataset_id) found)
  where
    given_with : DataProfile → ℕ → Option Payload → Result Given
    given_with profile ttl dataset =
        ok (record {
          store = store_of config mappings now ttl;
          profile = profile;
          dataset = dataset;
        })

    after : DataProfile → ℕ → Result Given
    after profile ttl = find_dataset options db >>= given_with profile ttl

pub conclude-request :
    (settings : StoreSettings) (request : SnapshotRequest) (fingerprint : String)
    (id : Option String) (mode : SourceMode) (o : Option DatasetSnapshot)
    → (conclude settings request fingerprint id mode o).request ≡ request
unfolding conclude
conclude-request settings request fingerprint (some id) mode none = refl
conclude-request settings request fingerprint none mode none = ground arith
conclude-request settings request fingerprint (some id) mode (some s) = ground arith
conclude-request settings request fingerprint none mode (some s) = ground arith

-- The action is to reuse the snapshot that is carried.
pub reused-some :
    (d : SnapshotDecision) {s : DatasetSnapshot}
    → reused d ≡ some s
    → (d.action ≡ SnapshotAction.reuse) × (d.snapshot ≡ some s)
reused-some d h = ground arith

module _ (disk : Disk) (config : DbtvConfig) (tags : List (String × List String))
    (options : CommandOptions) (store : StoreSettings) (dataset : Option Payload)
    (materialize : PlannedSource → DatasetSnapshot → Result PlannedSource) where
  -- The check of a source whose snapshot is to be reused.
  pub record Checked (source settled : PlannedSource) (s : DatasetSnapshot) : Type 0 where
    pub names : List String
    pub tagged : lookup (unique_id source) tags ≡ some names
    pub rows : s.row_count ≤ row_maximum config.policy options.max_rows
    pub same :
        check_ages config.policy store.now (mode_of dataset options) source.decision s names source
        ≡ settled

  pub check_reuse-Checked :
      (source settled : PlannedSource) {s : DatasetSnapshot}
      → reused source.decision ≡ some s
      → check_reuse disk config tags options store dataset materialize source ≡ ok settled
      → Checked source settled s
  unfolding check_reuse
  check_reuse-Checked source settled {s} r h =
      let (names, found, rest) =
        >>=-eq-ok (or_missing (lookup (unique_id source) tags))
          (limit_reuse disk config tags options store dataset materialize source s)
          (rw (r, check_reuse) at h) in
      let (_, within, last) =
        >>=-eq-ok
          (require (not (ltb (row_maximum config.policy options.max_rows) s.row_count))
            policy_error)
          (λ _. ok (
            check_ages config.policy store.now (mode_of dataset options) source.decision s names
              source))
          rest in
      record {
        names = names;
        tagged = or_missing-ok (lookup (unique_id source) tags) found;
        rows = require-le s.row_count (row_maximum config.policy options.max_rows) within;
        same = ok_inj last;
      }
    where
      or_missing-ok :
          (o : Option (List String)) {names : List String}
          → or_missing o ≡ ok names
          → o ≡ some names
      or_missing-ok none e = cc
      or_missing-ok (some x) e = cc

      require-le : (n m : ℕ) → require (not (ltb m n)) policy_error ≡ ok tt → n ≤ m
      require-le n m e = ground arith

  pub check_reuse-none :
      (source settled : PlannedSource)
      → reused source.decision ≡ none
      → check_reuse disk config tags options store dataset materialize source ≡ ok settled
      → source ≡ settled
  unfolding check_reuse
  check_reuse-none source settled r h = ok_inj (rw (r, check_reuse) at h)

  -- Where the mode is local no source asks for a refresh.
  pub check_reuse-local_mode :
      (source settled : PlannedSource)
      → is_local_mode (mode_of dataset options) ≡ true
      → source.decision.action ≢ SnapshotAction.refresh
      → check_reuse disk config tags options store dataset materialize source ≡ ok settled
      → settled.decision.action ≢ SnapshotAction.refresh
  check_reuse-local_mode source settled l p h = elim (Option-cases (reused source.decision)) [
    | inl n ↦
        subst (λ (t : PlannedSource). t.decision.action ≢ SnapshotAction.refresh)
          (check_reuse-none source settled n h) p
    | inr (s, r) ↦
        let c = check_reuse-Checked source settled r h in
        subst (λ (t : PlannedSource). t.decision.action ≢ SnapshotAction.refresh) c.same
          (elim (check_ages-cases config.policy store.now (mode_of dataset options) source.decision
            s c.names source) [
              | inl e ↦
                  subst (λ (t : PlannedSource). t.decision.action ≢ SnapshotAction.refresh)
                    (sym e.0) p
              | inr e ↦
                  subst (λ (t : PlannedSource). t.decision.action ≢ SnapshotAction.refresh) (sym e)
                    (rw l (λ q. cc))
            ])
  ]
