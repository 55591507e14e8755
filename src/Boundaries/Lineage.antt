-- ===== src/Boundaries/Lineage.antt =====
-- project/boundaries.py: `lineage` and `dependency_boundaries`.
use dbtv.Common.{
  String, Bool, true, false, not, ◌&&◌, ◌||◌, ◌==◌, List, [], ◌∷◌, Option, none, some, keep, member,
  lookup, sorted,
}
use dbtv.Models.{
  ResourceType, model, test, seed, snapshot, Relation, NormalizedNode, NormalizedManifest,
}
use dbtv.Selection.{Nodes, is_source}
use dbtv.Boundaries.Visit.{Rules, explore}
use dbtv.Boundaries.Notes.{written_keys, in_written_order}

pub record LineageNode : Type 0 where
  pub unique_id : String
  pub selected : Bool
  pub resource_type : ResourceType
  pub relation : Option Relation

-- An edge is a pair of the values that the source calls `from` and `to`.
pub record Lineage : Type 0 where
  pub nodes : List LineageNode
  pub edges : List (String × String)

abbrev pub all_parents : Rules
all_parents = record { enters = λ p. true; notes = λ p. true }

unfoldable pub lineage_nodes : Nodes → List String → List String → List LineageNode
lineage_nodes nodes selected [] = []
lineage_nodes nodes selected (item ∷ items) =
    let rest = lineage_nodes nodes selected items in
    elim (lookup item nodes) [
      | none ↦ rest
      | some node ↦
          record {
            unique_id = item;
            selected = member item selected;
            resource_type = node.resource_type;
            relation = node.relation;
          }
          ∷ rest
    ]

-- `none` when the fuel of the walk runs out.
unfoldable pub lineage : NormalizedManifest → List String → Option Lineage
lineage manifest selected = elim (explore all_parents manifest.nodes selected) [
  | none ↦ none
  | some t ↦ some (record {
    nodes = lineage_nodes manifest.nodes selected (sorted t.visited);
    edges = in_written_order [] t.noted;
  })
]

-- `scheduled_types`.
abbrev pub is_scheduled_type : String → ResourceType → Bool
is_scheduled_type command type = elim type [
  | model ↦ command == "run" || command == "build"
  | seed ↦ command == "build"
  | snapshot ↦ command == "build"
  | test ↦ command == "build" || command == "test"
  | _ ↦ false
]

abbrev pub is_scheduled : Nodes → String → String → Bool
is_scheduled nodes command id = elim (lookup id nodes) [
  | none ↦ false
  | some node ↦ is_scheduled_type command node.resource_type
]

-- The set `scheduled`.
abbrev pub scheduled : Nodes → List String → String → List String
scheduled nodes selected command = keep (is_scheduled nodes command) selected

abbrev pub is_ephemeral : NormalizedNode → Bool
is_ephemeral node = elim node.materialized [ none ↦ false | some m ↦ m == "ephemeral" ]

abbrev pub is_relational : NormalizedNode → Bool
is_relational node = elim node.resource_type [
  | model ↦ true
  | seed ↦ true
  | snapshot ↦ true
  | _ ↦ false
]

-- A parent is visited that is scheduled or ephemeral.
unfoldable pub is_passed : Nodes → List String → String → Bool
is_passed nodes planned parent = elim (lookup parent nodes) [
  | none ↦ false
  | some node ↦ not (is_source node) && (member parent planned || is_ephemeral node)
]

-- A parent is required that is not visited and has a relation of its own.
unfoldable pub is_boundary : Nodes → List String → String → Bool
is_boundary nodes planned parent = elim (lookup parent nodes) [
  | none ↦ false
  | some node ↦
      not (is_source node) && not (member parent planned || is_ephemeral node) && is_relational node
]

abbrev pub boundary_rules : Nodes → List String → Rules
boundary_rules nodes planned = record {
  enters = is_passed nodes planned;
  notes = is_boundary nodes planned;
}

pub record Boundary : Type 0 where
  pub unique_id : String
  pub resource_type : ResourceType
  pub relation : Option Relation
  pub needed_by : String

-- The entries of `required` at the given keys. It was written last for a key at the first of the pairs.
unfoldable pub boundaries_at : Nodes → List (String × String) → List String → List Boundary
boundaries_at nodes noted [] = []
boundaries_at nodes noted (key ∷ rest) =
    let others = boundaries_at nodes noted rest in
    elim (lookup key nodes) [
      | none ↦ others
      | some node ↦ elim (lookup key noted) [
        | none ↦ others
        | some child ↦
            record {
              unique_id = key;
              resource_type = node.resource_type;
              relation = node.relation;
              needed_by = child;
            }
            ∷ others
      ]
    ]

-- `iterate` is the order in which Python goes over a set.
unfoldable pub dependency_boundaries :
    (List String → List String) → NormalizedManifest → List String → String → Option (List Boundary)
dependency_boundaries iterate manifest selected command =
    let planned = scheduled manifest.nodes selected command in
    elim (explore (boundary_rules manifest.nodes planned) manifest.nodes (iterate planned)) [
      | none ↦ none
      | some t ↦ some (boundaries_at manifest.nodes t.noted (sorted (written_keys t.noted)))
    ]
