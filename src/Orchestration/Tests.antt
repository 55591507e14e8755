-- ===== src/Orchestration/Tests.antt =====
-- A run in the offline mode, whose source is reused.
use dbtv.Common.{◌≡◌, refl, true, false, [], ◌∷◌, none, some, keep}
use dbtv.Errors.{ok, err, config_error}
use dbtv.State.{is_run}
use dbtv.Models.Runs.{SourceCapabilities}
use dbtv.Budget.{Limits, limits_of}
use dbtv.Store.Write.{Files}
use dbtv.Store.WriteTests.{writer}
use dbtv.Store.Tests.{disk}
use dbtv.Backend.Tests.{duck}
use dbtv.Samples.{index}
use dbtv.Sources.Options.{CommandOptions}
use dbtv.Sources.Examples.{around, same, settings, options, plan}
use dbtv.Orchestration.Run.{RunState, dbt_args}
use dbtv.Orchestration.Capture.{Services}
use dbtv.Orchestration.Execute.{Stages, execute, run_limited}
use dbtv.Orchestration.Finished.{HasRow, first_row, execute-ends, execute-unfinished}
use dbtv.Orchestration.Traces.{IsPath, IsHead}
use dbtv.Orchestration.Local.{IsLast, run_limited-moves, run_limited-local}

abbrev capabilities : SourceCapabilities
capabilities = record {
  arrow_streaming = true;
  projection_pushdown = true;
  predicate_pushdown = true;
  limit_pushdown = true;
  bernoulli_sampling = false;
  deterministic_sampling = false;
  snapshot_identity = false;
  consistent_snapshot_time = false;
  direct_duckdb_read = true;
  cancellable_queries = true;
  remote_access = true;
}

abbrev services : Services
services = record {
  capabilities = λ connector. ok capabilities;
  credentials = λ name settings. ok tt;
  extract = λ source. record {
    created = ok tt;
    opened = ok tt;
    before = ok none;
    batches = [];
    after = ok none;
    provider_version = none;
  };
  check_disk = λ i. ok tt;
  writer = λ source. writer;
}

abbrev stages : Stages
stages = record {
  start = ok tt;
  plan = ok plan;
  ready = ok tt;
  prerequisites = λ report. ok [];
  run_dbt = ok 0;
  load_results = ok tt;
  capture_outputs = ok tt;
  done = ok tt;
  completed_event = ok tt;
  failure_reported = ok tt;
  resources_written = ok tt;
  failure = none;
  hash_dataset = λ keys scopes. "d1";
  search = λ pattern text. false;
  started_at = 20;
  completed_at = 30;
}

abbrev files : Files
files = record { disk = disk true; db = index; pending = false }

abbrev limits : Limits
limits = limits_of settings.policy (some 5) none

run_limited-moves_example :
    let m =
      run_limited around same services stages duck settings "run" "/runs" 20 options limits files in
    IsPath m.1.transitions × ((s : RunState) × IsHead s m.1.transitions × IsLast stages m.0 s)
run_limited-moves_example =
    run_limited-moves around same services stages duck settings "run" "/runs" 20 options limits
      files

run_limited-local_example :
    let m =
      run_limited around same services stages duck settings "run" "/runs" 20 options limits files in
    (m.1.remote_attempted ≡ false) × (m.1.remote_queries ≡ 0)
run_limited-local_example =
    run_limited-local around same services stages duck settings "run" "/runs" 20 options limits
      files refl

execute-ends_example :
    let e = execute around same services stages duck settings "run" "/runs" 20 options files in
    HasRow stages "run" e.0 e.1.db.runs
execute-ends_example =
    execute-ends around same services stages duck settings "run" "/runs" 20 options limits files
      refl refl

abbrev unparsed : CommandOptions
unparsed = record options { max_bytes = some (err config_error) }

execute-unfinished_example :
    let e = execute around same services stages duck settings "run" "/runs" 20 unparsed files in
    (e.0 ≡ err config_error)
    × (keep (is_run "run") e.1.db.runs
        ≡ first_row around same services stages duck settings "run" "/runs" 20 unparsed ∷ [])
execute-unfinished_example =
    execute-unfinished around same services stages duck settings "run" "/runs" 20 unparsed
      config_error files refl refl

arguments :
    dbt_args "run" "/shop" "/profiles" "/target"
      (record options { select = "orders" ∷ []; full_refresh = true })
    ≡ "run" ∷ "--project-dir" ∷ "/shop" ∷ "--profiles-dir" ∷ "/profiles" ∷ "--target" ∷ "dbtv_local"
      ∷ "--target-path" ∷ "/target" ∷ "--select" ∷ "orders" ∷ "--full-refresh" ∷ []
unfolding dbt_args
arguments = refl
