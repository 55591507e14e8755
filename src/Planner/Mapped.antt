-- ===== src/Planner/Mapped.antt =====
-- What becomes of each required source: a mapping or a finding that stops the run.
use dbtv.Common.{
  String, ◌≡◌, refl, ◌∙◌, ap, Bool, true, false, not, ◌&&◌, ◌==◌, eq_iff, List, [], ◌∷◌, Option,
  none, some, map, if◌then◌else◌, all_of, keep, lookup, Bool-cases, inl, inr, some_inj, All, sym,
}
use dbtv.Models.{
  CompatibilityFinding, NormalizedNode, NormalizedManifest, SourceRef, Relation, source_ref,
  ResourceType, source,
}
use dbtv.Planner.Mapping.{Mapped, map_relations, map_nodes, map_source, map_sources}

abbrev pub is_given {ℓ} : {A : Type ℓ} → Option A → Bool
is_given none = false
is_given (some a) = true

-- The source stands in both manifests, with a relation in each and a reference.
abbrev pub is_mappable_nodes : Option NormalizedNode → Option NormalizedNode → Bool
is_mappable_nodes (some production) (some other) =
    is_given (source_ref production) && (is_given production.relation && is_given other.relation)
is_mappable_nodes _ _ = false

abbrev pub is_mappable : NormalizedManifest → NormalizedManifest → String → Bool
is_mappable production local_manifest id =
    is_mappable_nodes (lookup id production.nodes) (lookup id local_manifest.nodes)

-- Every node stands under its id.
abbrev pub IsKeyed : NormalizedManifest → Type 0
IsKeyed manifest = All (λ p. p.0 ≡ p.1.unique_id) manifest.nodes

lookup-keyed :
    (id : String) (nodes : List (String × NormalizedNode)) {node : NormalizedNode}
    → All (λ p. p.0 ≡ p.1.unique_id) nodes
    → lookup id nodes ≡ some node
    → node.unique_id ≡ id
unfolding lookup
lookup-keyed id [] h e = cc
lookup-keyed id ((k, n) ∷ nodes) h e = elim (Bool-cases (k == id)) [
  | inl t ↦ ap (λ n. n.unique_id) (sym (some_inj (rw t at e))) ∙ sym h.0 ∙ (eq_iff k id).0 t
  | inr t ↦ lookup-keyed id nodes h.1 (rw t at e)
]

source_ref-id_at :
    (node : NormalizedNode) (t : ResourceType) (s : Option String) {ref : SourceRef}
    → source_ref (record node { resource_type = t; source_name = s }) ≡ some ref
    → ref.unique_id ≡ node.unique_id
unfolding source_ref
source_ref-id_at node source (some s) e = ap (λ r. r.unique_id) (sym (some_inj e))
source_ref-id_at node _ _ e = cc

source_ref-id :
    (node : NormalizedNode) {ref : SourceRef}
    → source_ref node ≡ some ref
    → ref.unique_id ≡ node.unique_id
source_ref-id node e = source_ref-id_at node node.resource_type node.source_name e

abbrev pub mapped_ids : Mapped → List String
mapped_ids m = map (λ x. x.source.unique_id) m.mappings

abbrev pub found_ids : Mapped → List (Option String)
found_ids m = map (λ x. x.node_id) m.findings

-- What a step adds: the id to the mapped ones, or to those of the findings.
StepOf : String → Bool → Mapped → Mapped → Type 0
StepOf id b before after =
    (mapped_ids after ≡ (if b then id ∷ mapped_ids before else mapped_ids before))
    × (found_ids after ≡ (if b then found_ids before else some id ∷ found_ids before))

map_relations-step :
    (node : NormalizedNode) (id : String) (ref : Option SourceRef) (p l : Option Relation)
    (m : Mapped)
    → ((r : SourceRef) → ref ≡ some r → r.unique_id ≡ id)
    → StepOf id (is_given ref && (is_given p && is_given l)) m (map_relations node id ref p l m)
unfolding StepOf
map_relations-step node id (some r) (some p) (some l) m h =
    (ap (λ k. k ∷ mapped_ids m) (h r refl), refl)
map_relations-step node id none p l m h = (refl, refl)
map_relations-step node id (some r) none l m h = (refl, refl)
map_relations-step node id (some r) (some p) none m h = (refl, refl)

map_nodes-step :
    (a b : Option NormalizedNode) (id : String) (m : Mapped)
    → ((node : NormalizedNode) → a ≡ some node → node.unique_id ≡ id)
    → StepOf id (is_mappable_nodes a b) m (map_nodes a b id m)
unfolding StepOf
map_nodes-step none b id m h = (refl, refl)
map_nodes-step (some x) none id m h = (refl, refl)
map_nodes-step (some x) (some y) id m h =
    map_relations-step x id (source_ref x) x.relation y.relation m
      λ r e. source_ref-id x e ∙ h x refl

module _ (production local_manifest : NormalizedManifest) (keyed : IsKeyed production) where
  map_source-step :
      (id : String) (m : Mapped)
      → StepOf id
          (is_mappable production local_manifest id)
          m
          (map_source production local_manifest id m)
  unfolding map_source
  map_source-step id m =
      map_nodes-step (lookup id production.nodes) (lookup id local_manifest.nodes) id m
        λ node e. lookup-keyed id production.nodes keyed e

  -- In a plan whose production manifest lists every node under its id, the mappings are those of the
  -- required sources that both manifests have with their relations, in order, and each other required
  -- source has a finding of its own, in order.
  pub map_sources_lem :
      (ids : List String)
      → (mapped_ids (map_sources production local_manifest ids)
          ≡ keep (is_mappable production local_manifest) ids)
        × (found_ids (map_sources production local_manifest ids)
            ≡ map some (keep (λ id. not (is_mappable production local_manifest id)) ids))
  unfolding map_sources keep StepOf
  map_sources_lem [] = (refl, refl)
  map_sources_lem (id ∷ ids) =
      let step = map_source-step id (map_sources production local_manifest ids) in
      let rest = map_sources_lem ids in
      elim (Bool-cases (is_mappable production local_manifest id)) [
        | inl t ↦ rw t (rw (t, rest.0) at step.0, rw (t, rest.1) at step.1)
        | inr t ↦ rw t (rw (t, rest.0) at step.0, rw (t, rest.1) at step.1)
      ]

-- What orchestration.py tests, and what the finding itself says.
abbrev pub continues : CompatibilityFinding → Bool
continues f = not (f.severity == "error")

abbrev pub may_continue : CompatibilityFinding → Bool
may_continue f = f.may_continue

-- A step makes a finding that stops the run exactly if the source is not mappable; no finding says so.
StopsOf : Bool → Mapped → Mapped → Type 0
StopsOf b before after =
    (all_of continues after.findings ≡ (b && all_of continues before.findings))
    × (all_of may_continue after.findings ≡ all_of may_continue before.findings)

map_relations-stops :
    (node : NormalizedNode) (id : String) (ref : Option SourceRef) (p l : Option Relation)
    (m : Mapped)
    → StopsOf (is_given ref && (is_given p && is_given l)) m (map_relations node id ref p l m)
unfolding StopsOf
map_relations-stops node id (some r) (some p) (some l) m = (refl, refl)
map_relations-stops node id none p l m = (refl, refl)
map_relations-stops node id (some r) none l m = (refl, refl)
map_relations-stops node id (some r) (some p) none m = (refl, refl)

map_nodes-stops :
    (a b : Option NormalizedNode) (id : String) (m : Mapped)
    → StopsOf (is_mappable_nodes a b) m (map_nodes a b id m)
unfolding StopsOf
map_nodes-stops none b id m = (refl, refl)
map_nodes-stops (some x) none id m = (refl, refl)
map_nodes-stops (some x) (some y) id m =
    map_relations-stops x id (source_ref x) x.relation y.relation m

-- The findings of the loop let the run continue, by their severity, exactly if every required source
-- can be mapped; yet each of them says that the run may continue.
pub map_sources-stops :
    (production local_manifest : NormalizedManifest) (ids : List String)
    → (all_of continues (map_sources production local_manifest ids).findings
        ≡ all_of (is_mappable production local_manifest) ids)
      × (all_of may_continue (map_sources production local_manifest ids).findings ≡ true)
unfolding map_sources map_source StopsOf
map_sources-stops production local_manifest [] = (refl, refl)
map_sources-stops production local_manifest (id ∷ ids) =
    let (continued, said) = map_sources-stops production local_manifest ids in
    let (a, b) =
      map_nodes-stops (lookup id production.nodes) (lookup id local_manifest.nodes) id
        (map_sources production local_manifest ids) in
    (a ∙ ap (λ c. is_mappable production local_manifest id && c) continued, b ∙ said)
