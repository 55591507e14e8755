-- ===== src/State/Runs.antt =====
-- state.py: runs and bindings.
use dbtv.Common.{
  ℕ, String, Bool, not, ◌&&◌, ◌==◌, [], ◌∷◌, ◌++◌, map, none, some, if◌then◌else◌, keep,
}
use dbtv.Models.{SourceBinding}
use dbtv.State.Tables.{RunRow, BindingRow, Db}

abbrev pub is_run : String → RunRow → Bool
is_run id r = r.invocation_id == id

-- `INSERT OR REPLACE`: an old row with the key is deleted first.
unfoldable pub start_run : String → String → String → ℕ → String → Db → Db
start_run id command state started_at artifact_path db = record db {
  runs =
      keep (λ r. not (is_run id r)) db.runs
      ++ (record {
        invocation_id = id;
        command = command;
        state = state;
        started_at = started_at;
        completed_at = none;
        remote_query_count = 0;
        artifact_path = artifact_path;
        exit_code = none;
      })
        ∷ [];
}

abbrev pub finished : String → String → ℕ → ℕ → ℕ → RunRow → RunRow
finished id state completed_at queries code r =
    if is_run id r
    then record r {
      state = state;
      completed_at = some completed_at;
      remote_query_count = queries;
      exit_code = some code;
    }
    else r

unfoldable pub finish_run : String → String → ℕ → ℕ → ℕ → Db → Db
finish_run id state completed_at queries code db = record db {
  runs = map (finished id state completed_at queries code) db.runs;
}

abbrev pub moved : String → String → RunRow → RunRow
moved id state r = if is_run id r then record r { state = state } else r

unfoldable pub update_run_state : String → String → Db → Db
update_run_state id state db = record db { runs = map (moved id state) db.runs }

abbrev pub is_binding : String → String → BindingRow → Bool
is_binding id source b = b.invocation_id == id && b.source_unique_id == source

abbrev pub bound_row : String → SourceBinding → BindingRow
bound_row id binding = record {
  invocation_id = id;
  source_unique_id = binding.mapping.source.unique_id;
  snapshot_key = binding.snapshot.snapshot_key;
  local_relation = record {
    catalog = binding.mapping.local_relation.catalog;
    schema = binding.mapping.local_relation.schema;
    identifier = binding.mapping.local_relation.identifier;
  };
}

unfoldable pub record_binding : String → SourceBinding → Db → Db
record_binding id binding db = record db {
  bindings =
      keep (λ b. not (is_binding id binding.mapping.source.unique_id b)) db.bindings
      ++ bound_row id binding ∷ [];
}
