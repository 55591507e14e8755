-- ===== src/Planner/Tests.antt =====
-- A plan of two sources, of which one has no relation.
use dbtv.Common.{
  String, ◌≡◌, refl, Bool, true, false, not, List, [], ◌∷◌, Option, none, some, all_of, keep, map,
  lookup, insert, lookup-insert, eq_refl, ap, ◌∙◌,
}
use dbtv.Errors.{ok}
use dbtv.Planner.Commands.{Workshop, is_restorable, save}
use dbtv.Planner.Restored.{IsFaithful, save-is_restorable}
use dbtv.Models.{NormalizedManifest, NormalizedNode, source}
use dbtv.Planner.Mapping.{map_sources}
use dbtv.Planner.Mapped.{
  IsKeyed, is_mappable, mapped_ids, found_ids, continues, may_continue, map_sources_lem,
  map_sources-stops,
}
use dbtv.Samples.{remote}

abbrev bare : NormalizedNode
bare = record {
  unique_id = "s";
  name = "s";
  resource_type = source;
  package_name = "shop";
  path = none;
  depends_on_nodes = [];
  relation = none;
  materialized = none;
  source_name = some "raw";
  raw_code = none;
  tags = [];
}

abbrev two : NormalizedManifest
two = record {
  schema_url = "v12";
  dbt_version = "1.10";
  generated_at = none;
  nodes = ("s", bare) ∷ ("t", record bare { unique_id = "t"; relation = some remote }) ∷ [];
}

two-IsKeyed : IsKeyed two
two-IsKeyed = (refl, (refl, tt))

map_sources_lem_example :
    (mapped_ids (map_sources two two ("s" ∷ "t" ∷ []))
      ≡ keep (is_mappable two two) ("s" ∷ "t" ∷ []))
    × (found_ids (map_sources two two ("s" ∷ "t" ∷ []))
        ≡ map some (keep (λ id. not (is_mappable two two id)) ("s" ∷ "t" ∷ [])))
map_sources_lem_example = map_sources_lem two two two-IsKeyed ("s" ∷ "t" ∷ [])

map_sources-stops_example :
    (all_of continues (map_sources two two ("s" ∷ "t" ∷ [])).findings
      ≡ all_of (is_mappable two two) ("s" ∷ "t" ∷ []))
    × (all_of may_continue (map_sources two two ("s" ∷ "t" ∷ [])).findings ≡ true)
map_sources-stops_example = map_sources-stops two two ("s" ∷ "t" ∷ [])

-- A disk as a dictionary of texts, in which a digest is the text itself.
abbrev or_empty : Option String → String
or_empty none = ""
or_empty (some t) = t

abbrev text_of : List (String × String) → String → String
text_of d p = or_empty (lookup p d)

abbrev exists : Option String → Bool
exists none = false
exists (some t) = true

abbrev shop : Workshop (List (String × String))
shop = record {
  is_file = λ d p. exists (lookup p d);
  read_text = text_of;
  sha256_file = text_of;
  make_directory = λ p d. d;
  copy = λ a b d. insert b (text_of d a) d;
  write_text = λ p t d. insert p t d;
  join = λ a b. b;
  run = λ args d. ok ("", d);
  parse_ls = λ s. ok [];
  load_manifest = λ d p. ok two;
}

shop-IsFaithful : IsFaithful shop
shop-IsFaithful = record {
  file-copy = λ a b d. rw (lookup-insert b b (text_of d a) d, eq_refl b) refl;
  file-write = λ p t d. rw (lookup-insert p p t d, eq_refl p) refl;
  read-write = λ p t d. ap or_empty (lookup-insert p p t d) ∙ rw (eq_refl p) refl;
  file-write_other = λ p q t d h. rw (lookup-insert p q t d, h) refl;
  sha-write_other = λ p q t d h. ap or_empty (lookup-insert p q t d) ∙ rw h refl;
  apart = λ dir. refl;
}

generated : shop.is_file (("partial_parse.msgpack", "state") ∷ []) "partial_parse.msgpack" ≡ true
unfolding lookup
generated = refl

save-is_restorable_example :
    is_restorable shop true true "cache"
      (save shop true true "cache" "target" (("partial_parse.msgpack", "state") ∷ []))
    ≡ true
save-is_restorable_example =
    save-is_restorable shop shop-IsFaithful "cache" "target"
      (("partial_parse.msgpack", "state") ∷ []) generated
