-- ===== src/Backend/Tests.antt =====
-- One binding in a database whose statements all succeed.
use dbtv.Common.{◌≡◌, refl, true, false, [], ◌∷◌, some, doubled, has_control}
use dbtv.Errors.{ok}
use dbtv.Models.{SourceBinding}
use dbtv.Models.Runs.{BindingReport}
use dbtv.Samples.{orders, remote, captured}
use dbtv.Backend.Quote.{quote_duckdb_identifier, quote_duckdb_string, read_quoted, quoted-reads}
use dbtv.Backend.Bind.{Log, Duck}

quotes : quote_duckdb_identifier "a\"b" ≡ ok "\"a\"\"b\""
unfolding quote_duckdb_identifier doubled has_control
quotes = refl

quoted-reads_example :
    (read_quoted 34 "\"a\"\"b\"" ≡ some "a\"b")
    × (read_quoted 39 (quote_duckdb_string "it's") ≡ some "it's")
quoted-reads_example = quoted-reads "a\"b" "\"a\"\"b\"" "it's" quotes

abbrev pub duck : Duck
duck = record {
  main_catalog = ok "local";
  connects = λ path. true;
  history = [];
  execute = λ log path statement. true;
  writes_map = true;
  casefold = λ s. s;
  database = "/local.duckdb";
  catalog_file = λ c. "/catalogs/prod.duckdb";
  resolve = λ path. path;
  join_path = λ a b. b;
}

abbrev binding : SourceBinding
binding = record {
  mapping = record {
    source = orders;
    production_relation = remote;
    local_relation = remote;
    tags = [];
  };
  snapshot = captured;
}

abbrev bound : BindingReport
bound = record {
  results =
      (record {
        source_unique_id = "source.shop.raw.orders";
        relation = "prod.raw.orders";
        catalog_path = "/catalogs/prod.duckdb";
        verified = false;
        row_count = some 3;
      })
      ∷ [];
  attachments = ("prod", "/catalogs/prod.duckdb") ∷ [];
}

abbrev checked : BindingReport
checked = record {
  results =
      (record {
        source_unique_id = "source.shop.raw.orders";
        relation = "prod.raw.orders";
        catalog_path = "/catalogs/prod.duckdb";
        verified = true;
        row_count = some 3;
      })
      ∷ [];
  attachments = ("prod", "/catalogs/prod.duckdb") ∷ [];
}

abbrev log : Log
log =
    (
      "/catalogs/prod.duckdb",
      "CREATE OR REPLACE VIEW \"raw\".\"orders\" AS SELECT * FROM read_parquet(['data.parquet'], union_by_name=true)",
    )
    ∷ ("/catalogs/prod.duckdb", "CREATE SCHEMA IF NOT EXISTS \"raw\"")
    ∷ []
