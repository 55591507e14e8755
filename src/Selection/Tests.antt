-- ===== src/Selection/Tests.antt =====
-- Runs of the selection on a small manifest with a cycle.
use dbtv.Common.{
  any_of, Option, String, ◌≡◌, refl, List, [], ◌∷◌, none, some, ◌↔◌, member, lookup, add, sorted,
  true,
}
use dbtv.Errors.{ok}
use dbtv.Json.{Json, object, text, field, end}
use dbtv.Selection.Ls.{parse_dbt_ls_json, read_lines, text_at, carries, parse_dbt_ls_json-member}
use dbtv.Models.{NormalizedNode, NormalizedManifest, ResourceType, model, source}
use dbtv.Selection.Walk.{visit_next, upstream_sources}
use dbtv.Selection.Reached.{Reaches, IsSourceNode}
use dbtv.Selection.Complete.{upstream_sources_exact}

abbrev node : String → ResourceType → List String → NormalizedNode
node id type deps = record {
  unique_id = id;
  name = id;
  resource_type = type;
  package_name = "shop";
  path = none;
  depends_on_nodes = deps;
  relation = none;
  materialized = none;
  source_name = some "raw";
  raw_code = none;
  tags = [];
}

-- The models `a` and `b` depend on one another; `z` depends on `b`.
abbrev pub shop : NormalizedManifest
shop = record {
  schema_url = "v12";
  dbt_version = "1.10";
  generated_at = none;
  nodes =
      ("a", node "a" model ("t" ∷ "b" ∷ "s" ∷ []))
      ∷ ("b", node "b" model ("a" ∷ "gone" ∷ []))
      ∷ ("z", node "z" model ("b" ∷ []))
      ∷ ("s", node "s" source [])
      ∷ ("t", node "t" source [])
      ∷ ("r", node "r" source [])
      ∷ [];
}

upstream_sources-shop : upstream_sources shop ("z" ∷ []) ≡ some ("s" ∷ "t" ∷ [])
unfolding upstream_sources visit_next sorted member lookup add
upstream_sources-shop = refl

upstream_sources-nothing : upstream_sources shop [] ≡ some []
unfolding upstream_sources sorted
upstream_sources-nothing = refl

upstream_sources_exact_example :
    (sources : List String) × (upstream_sources shop ("z" ∷ []) ≡ some sources)
    × ((u : String)
        → (member u sources ≡ true) ↔ (Reaches shop.nodes ("z" ∷ []) u × IsSourceNode shop.nodes u))
upstream_sources_exact_example = upstream_sources_exact shop ("z" ∷ [])

-- An output of one line, which is an object with the id `a`.
abbrev one_line : String → List String
one_line s = s ∷ []

abbrev load_a : String → Option Json
load_a s = some (object (field "unique_id" (text "a") end))

reads_a : parse_dbt_ls_json one_line load_a "{}" ≡ ok ("a" ∷ [])
unfolding parse_dbt_ls_json read_lines sorted member lookup add text_at
reads_a = refl

parse_dbt_ls_json-member_example :
    member "a" ("a" ∷ []) ≡ any_of (carries one_line load_a "a") ("{}" ∷ [])
parse_dbt_ls_json-member_example =
    parse_dbt_ls_json-member one_line load_a "{}" ("a" ∷ []) "a" reads_a
