-- ===== src/Compatibility/Analyze.antt =====
-- compatibility.py: `CompatibilityAnalyzer`. `search pattern text` is `re.search` without regard to
-- case. The messages and remediations of findings are left out.
use dbtv.Common.{
  String, Bool, true, false, not, ◌&&◌, ◌==◌, List, [], ◌∷◌, ◌++◌, Option, none, some,
  if◌then◌else◌, member, lookup,
}
use dbtv.Models.{
  CompatibilityFinding, NormalizedNode, NormalizedManifest, model, CanonicalField, CanonicalSchema,
  FidelityMode, strict,
}
use dbtv.Config.{CompatibilitySettings}
use dbtv.Compatibility.Rules.{SqlRule, sql_rules, supported, wide_decimal}

abbrev pub is_strict : FidelityMode → Bool
is_strict strict = true
is_strict _ = false

abbrev pub is_model : NormalizedNode → Bool
is_model node = elim node.resource_type [ model ↦ true | _ ↦ false ]

abbrev pub or_text : Option String → String → String
or_text none d = d
or_text (some s) d = s

unfoldable pub severity_of : CompatibilitySettings → String → Bool → String
severity_of settings rule_id blocking =
    if member rule_id settings.allow_rules
    then "info"
    else if member rule_id settings.deny_rules
    then "error"
    else if member rule_id settings.warn_rules
    then "warning"
    else if blocking && is_strict settings.mode
    then "error"
    else "warning"

-- `_finding`.
unfoldable pub finding :
    CompatibilitySettings → String → String → Option String → Bool → CompatibilityFinding
unfolding severity_of
finding settings rule_id node_id path blocking =
    let severity = severity_of settings rule_id blocking in
    record {
      rule_id = rule_id;
      severity = severity;
      node_id = some node_id;
      path = path;
      may_continue = not (severity == "error");
    }

module _ (search : String → String → Bool) (settings : CompatibilitySettings) where
  -- The loop over the rules.
  unfoldable pub rule_findings : NormalizedNode → List SqlRule → List CompatibilityFinding
  unfolding finding
  rule_findings node [] = []
  rule_findings node (r ∷ rs) =
      let rest = rule_findings node rs in
      if search r.pattern (or_text node.raw_code "")
      then finding settings r.rule_id node.unique_id node.path r.blocking ∷ rest
      else rest

  -- The body of the loop over the selected nodes, for a model.
  unfoldable pub node_findings : NormalizedNode → List CompatibilityFinding
  unfolding finding supported rule_findings
  node_findings node =
      let materialized = or_text node.materialized "view" in
      (if not (supported materialized)
        then finding settings "DBTV-MAT-001" node.unique_id node.path true ∷ []
        else [])
      ++ (if materialized == "incremental"
          then finding settings "DBTV-INCR-001" node.unique_id node.path false ∷ []
          else [])
      ++ rule_findings node sql_rules

  abbrev pub findings_at : Option NormalizedNode → List CompatibilityFinding
  findings_at none = []
  findings_at (some node) = if is_model node then node_findings node else []

  unfoldable pub analyze_manifest : NormalizedManifest → List String → List CompatibilityFinding
  unfolding node_findings
  analyze_manifest manifest [] = []
  analyze_manifest manifest (u ∷ selected_ids) =
      findings_at (lookup u manifest.nodes) ++ analyze_manifest manifest selected_ids

  unfoldable pub schema_findings : String → List CanonicalField → List CompatibilityFinding
  unfolding finding
  schema_findings source_unique_id [] = []
  schema_findings source_unique_id (f ∷ fields) =
      let rest = schema_findings source_unique_id fields in
      if search wide_decimal f.arrow_type
      then finding settings "DBTV-TYPE-001" source_unique_id none true ∷ rest
      else rest

  unfoldable pub analyze_schema : CanonicalSchema → String → List CompatibilityFinding
  unfolding schema_findings
  analyze_schema schema source_unique_id = schema_findings source_unique_id schema.fields
