-- ===== src/Selection/Reached.antt =====
-- Which sources the selected nodes reach, and the invariant of the loop.
use dbtv.Common.{String, ◌≡◌, true, false, ◌||◌, List, some, member, lookup}
use dbtv.Models.{NormalizedNode}
use dbtv.Selection.Walk.{is_source, Nodes, Walk}

-- The manifest has the node, and it is a source.
pub record IsSourceNode (nodes : Nodes) (u : String) : Type 0 where
  pub node : NormalizedNode
  pub found : lookup u nodes ≡ some node
  pub is_source_node : is_source node ≡ true

module _ (nodes : Nodes) (selected : List String) where
  -- A node that the selection leads to by dependencies of nodes that are no sources.
  pub data Reaches : String → Type 0 where
    selected_node : (u : String) → member u selected ≡ true → Reaches u
    dependency :
        (u v : String) (node : NormalizedNode)
        → Reaches u
        → lookup u nodes ≡ some node
        → is_source node ≡ false
        → member v node.depends_on_nodes ≡ true
        → Reaches v

  -- What the loop keeps.
  pub record Inv (w : Walk) : Type 0 where
    pub pending_reached : (u : String) → member u w.pending ≡ true → Reaches u
    pub sources_reached :
        (u : String) → member u w.sources ≡ true → Reaches u × IsSourceNode nodes u
    pub sources_kept :
        (u : String) → member u w.visited ≡ true → IsSourceNode nodes u → member u w.sources ≡ true
    pub closed :
        (u v : String) (node : NormalizedNode)
        → member u w.visited ≡ true
        → lookup u nodes ≡ some node
        → is_source node ≡ false
        → member v node.depends_on_nodes ≡ true
        → (member v w.visited || member v w.pending) ≡ true
    pub started :
        (u : String) → member u selected ≡ true → (member u w.visited || member u w.pending) ≡ true
