-- ===== src/Orchestration/Capture.antt =====
-- orchestration.py: `_refresh`. The captures of a level run in a pool; in the model they run one after
-- the other, and the first that raises ends the level. Sessions are not pooled. `Services` holds what
-- connectors, credentials and the disk answer.
use dbtv.Common.{
  ℕ, suc, ◌+◌, String, Bool, true, false, not, ◌&&◌, ◌||◌, ◌==◌, List, [], ◌∷◌, ◌++◌, Option, none,
  some, if◌then◌else◌, lookup, insert, member,
}
use dbtv.Errors.{Result, ok, err, policy_error, internal_error, require, ◌>>=◌, ◌>>◌}
use dbtv.Errors.Calls.{continue}
use dbtv.Models.{DatasetSnapshot, SourceVersion}
use dbtv.Models.Runs.{SourceCapabilities}
use dbtv.Config.{SourceSettings}
use dbtv.Budget.{Limits, RunBudget, consume}
use dbtv.Store.{StoreSettings, given, current_size}
use dbtv.Store.Write.{is_whole, ExtractionBatch, Writer, nothing_written, Files, write_batches}
use dbtv.Store.Commit.{WriteRequest, write}
use dbtv.Sources.{PlannedSource, unique_id}
use dbtv.Orchestration.Run.{Run, validate_capabilities}

-- What one connector answers for a source: its creation, its opening, its versions before and after,
-- and what each step of its iterator gives, the token's check included.
pub record Extraction : Type 0 where
  pub created : Result (Unit {0})
  pub opened : Result (Unit {0})
  pub before : Result (Option SourceVersion)
  pub batches : List (Result ExtractionBatch)
  pub after : Result (Option SourceVersion)
  pub provider_version : Option String

pub record Services : Type 0 where
  pub capabilities : String → Result SourceCapabilities
  pub credentials : String → SourceSettings → Result (Unit {0})
  pub extract : PlannedSource → Extraction
  pub check_disk : ℕ → Result (Unit {0})
  pub writer : String → Writer

abbrev pub has_columns : Option (List String) → Bool
has_columns none = false
has_columns (some []) = false
has_columns (some _) = true

-- The first loop of `_refresh`: `seen` are the connections with credentials.
unfoldable pub prepare_connections : Services → List String → List PlannedSource → Result (Unit {0})
unfolding validate_capabilities
prepare_connections services seen [] = ok tt
prepare_connections services seen (s ∷ rest) =
    let next = prepare_connections services (s.connection_name ∷ seen) rest in
    let skip = prepare_connections services seen rest in
    services.capabilities s.settings.connector >>= λ c.
    validate_capabilities s.decision.request.sampling c
    >> require (not (has_columns s.decision.request.projection) || c.projection_pushdown)
        policy_error
    >> (if member s.connection_name seen
        then skip
        else if s.settings.credential_resolver == "none"
        then next
        else (services.credentials s.connection_name s.settings >> next))

-- The versions before and after the extraction that are given and differ.
abbrev pub has_changed : Option SourceVersion → Option SourceVersion → Bool
has_changed (some a) (some b) = not (a.value == b.value)
has_changed _ _ = false

abbrev pub is_ok {ℓ} : {A : Type ℓ} → Result A → Bool
is_ok (err e) = false
is_ok (ok a) = true

-- `bounded_batches`, up to the end of the extraction: what the iterator gives, and the budget.
module _ (services : Services) (limits : Limits) (id : String) where
  abbrev pub counted :
      ExtractionBatch
      → RunBudget × Result (Unit {0})
      → Result (Unit {0})
      → List (Result ExtractionBatch) × RunBudget
      → List (Result ExtractionBatch) × RunBudget
  counted batch (b, err e) disk rest = (err e ∷ [], b)
  counted batch (b, ok _) (err e) rest = (ok batch ∷ err e ∷ [], b)
  counted batch (b, ok _) (ok _) rest = (ok batch ∷ rest.0, rest.1)

  unfoldable pub bounded_batches :
      ℕ → List (Result ExtractionBatch) → RunBudget → List (Result ExtractionBatch) × RunBudget
  bounded_batches index [] b = ([], b)
  bounded_batches index (err e ∷ bs) b = (err e ∷ [], b)
  bounded_batches index (ok batch ∷ bs) b =
      let consumed =
        consume limits (record { source_id = id; row_count = batch.rows; byte_count = batch.bytes })
          b in
      counted batch consumed (services.check_disk index) (bounded_batches (suc index) bs consumed.0)

-- The last step of the iterator.
abbrev pub last_step :
    Option SourceVersion → Result (Option SourceVersion) → List (Result ExtractionBatch)
last_step before (err e) = err e ∷ []
last_step before (ok after) = if has_changed before after then err policy_error ∷ [] else []

module _ (services : Services) (limits : Limits) (settings : StoreSettings) (pinned : Bool) where
  abbrev pub attempted : Bool → Run → Run
  attempted remote run = record run { remote_attempted = run.remote_attempted || remote }

  abbrev pub write_request : PlannedSource → Extraction → Option SourceVersion → WriteRequest
  write_request s x version = record {
    request = s.decision.request;
    provider = s.settings.connector;
    source_version = version;
    provider_version = x.provider_version;
    pinned = pinned;
    activate = false;
  }

  -- The extraction has gone through all batches. It is not started if `write` cannot make its directories.
  abbrev pub is_exhausted : Writer → List (Result ExtractionBatch) → Files → Bool
  is_exhausted writer batches f =
      is_whole writer.mkdir
      && is_ok (write_batches settings writer (current_size f.db) 0 batches nothing_written)

  abbrev pub write_source :
      PlannedSource → Bool → Extraction → Run → Option SourceVersion → Result DatasetSnapshot × Run
  write_source s remote x run version =
      let (batches, budget) =
        bounded_batches services limits (unique_id s) 0 x.batches run.budget in
      let writer = services.writer (unique_id s) in
      let steps =
        if is_exhausted writer batches run.files
        then batches ++ last_step version x.after
        else batches in
      let (result, files) =
        write settings writer (write_request s x version) steps run.files.disk run.files.db in
      (
        result,
        record run {
          files = files;
          budget = if is_whole writer.mkdir then budget else run.budget;
          remote_queries =
              if remote && is_exhausted writer batches run.files
              then run.remote_queries + 1
              else run.remote_queries;
        },
      )

  abbrev pub read_version :
      PlannedSource
      → Bool
      → Extraction
      → Run
      → Result (Option SourceVersion)
      → Result DatasetSnapshot × Run
  read_version s remote x run (err e) = (err e, run)
  read_version s remote x run (ok version) = write_source s remote x run version

  abbrev pub after_opening :
      PlannedSource → Bool → Extraction → Run → Result (Unit {0}) → Result DatasetSnapshot × Run
  after_opening s remote x run (err e) = (err e, run)
  after_opening s remote x run (ok _) = read_version s remote x run x.before

  abbrev pub after_creation :
      PlannedSource → Extraction → Run → Result SourceCapabilities → Result DatasetSnapshot × Run
  after_creation s x run (err e) = (err e, run)
  after_creation s x run (ok c) =
      after_opening s c.remote_access x (attempted c.remote_access run) x.opened

  -- `refresh`, for one source.
  unfoldable pub refresh : PlannedSource → Run → Result DatasetSnapshot × Run
  unfolding bounded_batches write
  refresh s run =
      let x = services.extract s in
      after_creation s x run (x.created >> services.capabilities s.settings.connector)

  -- The snapshots by source.
  abbrev pub Known : Type 0
  Known = List (String × DatasetSnapshot)

  unfoldable pub refresh_level : List PlannedSource → Known → Run → Result Known × Run
  unfolding refresh
  refresh_level [] known run = (ok known, run)
  refresh_level (s ∷ rest) known run =
      continue (refresh s run)
        (λ snapshot run'. refresh_level rest (insert snapshot.source.unique_id snapshot known) run')

  module _ (materialize : PlannedSource → DatasetSnapshot → Result PlannedSource) where
    abbrev pub with_parent : PlannedSource → Known → Option String → Result PlannedSource
    with_parent s known none = ok s
    with_parent s known (some id) = elim (lookup id known) [
      | none ↦ err internal_error
      | some parent ↦ materialize s parent
    ]

    unfoldable pub prepare_level : List PlannedSource → Known → Result (List PlannedSource)
    prepare_level [] known = ok []
    prepare_level (s ∷ rest) known = with_parent s known (given s.cohort_parent) >>= λ p.
        prepare_level rest known >>= λ ps. ok (p ∷ ps)

    abbrev pub refresh_prepared : Known → Run → Result (List PlannedSource) → Result Known × Run
    refresh_prepared known run (err e) = (err e, run)
    refresh_prepared known run (ok level) = refresh_level level known run

    unfoldable pub refresh_levels : List (List PlannedSource) → Known → Run → Result Known × Run
    unfolding prepare_level refresh_level
    refresh_levels [] known run = (ok known, run)
    refresh_levels (level ∷ rest) known run =
        continue (refresh_prepared known run (prepare_level level known)) (refresh_levels rest)

    -- `_refresh`, with the levels of the sources.
    unfoldable pub refresh_all :
        List PlannedSource → Result (List (List PlannedSource)) → Known → Run → Result Known × Run
    unfolding prepare_connections refresh_levels
    refresh_all sources levels known run =
        elim (prepare_connections services [] sources >> levels) [
          | err e ↦ (err e, run)
          | ok ls ↦ refresh_levels ls known run
        ]
