-- ===== src/Planner/Mapping.antt =====
-- project/planner.py: the part of `ProjectPlanner.build` after both targets are resolved, which maps
-- the required sources. `analyzed` are the findings of the analyzer. Messages are left out.
use dbtv.Common.{
  String, Bool, true, ◌&&◌, List, [], ◌∷◌, ◌++◌, Option, none, some, if◌then◌else◌, all_of, member,
  add, sorted, lookup,
}
use dbtv.Models.{
  CompatibilityFinding, NormalizedNode, NormalizedManifest, SourceMapping, SourceRef, Relation,
  source_ref,
}
use dbtv.Selection.{upstream_sources}

pub record Mapped : Type 0 where
  pub mappings : List SourceMapping
  pub findings : List CompatibilityFinding

-- A finding as the dataclass builds it: `may_continue` keeps its default.
abbrev pub plain_finding : String → String → Option String → CompatibilityFinding
plain_finding rule_id severity node_id = record {
  rule_id = rule_id;
  severity = severity;
  node_id = node_id;
  path = none;
  may_continue = true;
}

unfoldable pub union : List String → List String → List String
union a [] = a
union a (x ∷ b) = union (add x a) b

abbrev pub same_set : List String → List String → Bool
same_set a b = all_of (λ x. member x b) a && all_of (λ x. member x a) b

unfoldable pub target_findings : List String → List String → List CompatibilityFinding
target_findings production_sources local_sources =
    if same_set production_sources local_sources
    then []
    else plain_finding "DBTV-CFG-001" "warning" none ∷ []

abbrev pub with_finding : CompatibilityFinding → Mapped → Mapped
with_finding f m = record m { findings = f ∷ m.findings }

abbrev pub map_relations :
    NormalizedNode → String → Option SourceRef → Option Relation → Option Relation → Mapped → Mapped
map_relations node id (some ref) (some production) (some local_relation) m = record m {
  mappings =
      (record {
        source = ref;
        production_relation = production;
        local_relation = local_relation;
        tags = node.tags;
      })
      ∷ m.mappings;
}
map_relations node id _ _ _ m = with_finding (plain_finding "DBTV-MANIFEST-002" "error" (some id)) m

abbrev pub map_nodes : Option NormalizedNode → Option NormalizedNode → String → Mapped → Mapped
map_nodes (some production) (some other) id m =
    map_relations production id (source_ref production) production.relation other.relation m
map_nodes _ _ id m = with_finding (plain_finding "DBTV-CFG-002" "error" (some id)) m

-- The body of the loop over the required sources, before what the rest of the loop adds.
unfoldable pub map_source : NormalizedManifest → NormalizedManifest → String → Mapped → Mapped
map_source production local_manifest id m =
    map_nodes (lookup id production.nodes) (lookup id local_manifest.nodes) id m

unfoldable pub map_sources : NormalizedManifest → NormalizedManifest → List String → Mapped
unfolding map_source
map_sources production local_manifest [] = record { mappings = []; findings = [] }
map_sources production local_manifest (id ∷ ids) =
    map_source production local_manifest id (map_sources production local_manifest ids)

-- The mappings and findings of a plan, given what `ls` selected under both targets.
unfoldable pub plan_sources :
    NormalizedManifest
    → NormalizedManifest
    → List String
    → List String
    → List CompatibilityFinding
    → Option Mapped
unfolding map_sources upstream_sources union target_findings
plan_sources production local_manifest selected local_selected analyzed =
    elim (upstream_sources production selected) [
      | none ↦ none
      | some production_sources ↦ elim (upstream_sources local_manifest local_selected) [
        | none ↦ none
        | some local_sources ↦
            let m =
              map_sources production local_manifest
                (sorted (union production_sources local_sources)) in
            some (record m {
              findings = analyzed ++ target_findings production_sources local_sources ++ m.findings;
            })
      ]
    ]
