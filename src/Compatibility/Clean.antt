-- ===== src/Compatibility/Clean.antt =====
-- Which models and schemas the analyzer lets pass.
use dbtv.Common.{
  String, ◌≡◌, refl, ◌∙◌, Bool, true, false, not, ◌&&◌, ◌||◌, ◌==◌, List, [], ◌∷◌, ◌++◌, Option,
  none, some, if◌then◌else◌, member, lookup, all_of, arith, Bool-cases, inl, inr,
}
use dbtv.Models.{CompatibilityFinding, NormalizedNode, NormalizedManifest}
use dbtv.Config.{CompatibilitySettings}
use dbtv.Compatibility.Rules.{SqlRule, sql_rules, supported}
use dbtv.Compatibility.Analyze.{
  is_strict, is_model, or_text, severity_of, finding, rule_findings, node_findings, findings_at,
  analyze_manifest,
}

-- A finding that does not stop the run: `orchestration.py` stops at the severity "error".
abbrev pub continues : CompatibilityFinding → Bool
continues f = not (f.severity == "error")

all_of-append :
    (xs ys : List CompatibilityFinding)
    → all_of continues (xs ++ ys) ≡ (all_of continues xs && all_of continues ys)
all_of-append [] ys = refl
all_of-append (x ∷ xs) ys = ground (arith, all_of-append xs ys)

severity_test :
    (a d w b : Bool)
    → not (
        (if a
          then "info"
          else if d
          then "error"
          else if w
          then "warning"
          else if b
          then "error"
          else "warning")
        == "error")
      ≡ not (not a && (d || (not w && b)))
severity_test true d w b = refl
severity_test false true w b = refl
severity_test false false true b = refl
severity_test false false false true = refl
severity_test false false false false = refl

-- A finding that is made under a test.
all_of-if :
    (t : Bool) (f : CompatibilityFinding) (xs : List CompatibilityFinding)
    → all_of continues (if t then f ∷ xs else xs) ≡ ((not t || continues f) && all_of continues xs)
all_of-if true f xs = refl
all_of-if false f xs = refl

-- Two findings that are made under tests, before others.
all_of-two_ifs :
    (a b : Bool) (f g : CompatibilityFinding) (xs : List CompatibilityFinding)
    → all_of continues ((if a then f ∷ [] else []) ++ (if b then g ∷ [] else []) ++ xs)
      ≡ ((not a || continues f) && ((not b || continues g) && all_of continues xs))
all_of-two_ifs true true f g xs = refl
all_of-two_ifs true false f g xs = refl
all_of-two_ifs false true f g xs = refl
all_of-two_ifs false false f g xs = refl

module _ (settings : CompatibilitySettings) where
  -- A finding of the rule stops the run: the rule is not allowed, and it is denied, or it blocks in
  -- the strict mode and is not a mere warning.
  abbrev pub stops : String → Bool → Bool
  stops rule_id blocking =
      not (member rule_id settings.allow_rules)
      && (member rule_id settings.deny_rules
          || (not (member rule_id settings.warn_rules) && (blocking && is_strict settings.mode)))

  finding-stops :
      (rule_id node_id : String) (path : Option String) (blocking : Bool)
      → continues (finding settings rule_id node_id path blocking) ≡ not (stops rule_id blocking)
  unfolding finding severity_of
  finding-stops rule_id node_id path blocking =
      severity_test (member rule_id settings.allow_rules) (member rule_id settings.deny_rules)
        (member rule_id settings.warn_rules) (blocking && is_strict settings.mode)

  module _ (search : String → String → Bool) where
    -- A rule that the text meets does not stop the run.
    abbrev pub passes : String → SqlRule → Bool
    passes code r = not (search r.pattern code) || not (stops r.rule_id r.blocking)

    -- The model's materialization and code meet no rule that stops the run.
    abbrev pub is_clean : NormalizedNode → Bool
    is_clean node =
        let materialized = or_text node.materialized "view" in
        (not (not (supported materialized)) || not (stops "DBTV-MAT-001" true))
        && ((not (materialized == "incremental") || not (stops "DBTV-INCR-001" false))
            && all_of (passes (or_text node.raw_code "")) sql_rules)

    rule_findings-continues :
        (node : NormalizedNode) (rs : List SqlRule)
        → all_of continues (rule_findings search settings node rs)
          ≡ all_of (passes (or_text node.raw_code "")) rs
    unfolding rule_findings
    rule_findings-continues node [] = refl
    rule_findings-continues node (r ∷ rs) =
        rw
          (
            all_of-if (search r.pattern (or_text node.raw_code ""))
                (finding settings r.rule_id node.unique_id node.path r.blocking)
                (rule_findings search settings node rs),
            finding-stops r.rule_id node.unique_id node.path r.blocking,
            rule_findings-continues node rs,
          )
          refl

    node_findings-continues :
        (node : NormalizedNode)
        → all_of continues (node_findings search settings node) ≡ is_clean node
    unfolding node_findings
    node_findings-continues node =
        let materialized = or_text node.materialized "view" in
        let mat = finding settings "DBTV-MAT-001" node.unique_id node.path true in
        let incr = finding settings "DBTV-INCR-001" node.unique_id node.path false in
        let code = rule_findings search settings node sql_rules in
        all_of-two_ifs (not (supported materialized)) (materialized == "incremental") mat incr code
        ∙ rw
            (
              finding-stops "DBTV-MAT-001" node.unique_id node.path true,
              finding-stops "DBTV-INCR-001" node.unique_id node.path false,
              rule_findings-continues node sql_rules,
            )
            refl

    -- A selected id passes: it is unknown, no model, or a clean model.
    abbrev pub selected_clean : Option NormalizedNode → Bool
    selected_clean none = true
    selected_clean (some node) = not (is_model node) || is_clean node

    at_continues :
        (found : Option NormalizedNode)
        → all_of continues (findings_at search settings found) ≡ selected_clean found
    at_continues none = refl
    at_continues (some node) = elim (Bool-cases (is_model node)) [
      | inl t ↦ rw t (node_findings-continues node)
      | inr t ↦ rw t refl
    ]

    -- The findings on the selected nodes let the run continue exactly if every selected model has a
    -- supported materialization and code without a pattern of the table, but for rules that the
    -- settings allow, downgrade or leave non-blocking.
    pub analyze_manifest-continues :
        (manifest : NormalizedManifest) (selected_ids : List String)
        → all_of continues (analyze_manifest search settings manifest selected_ids)
          ≡ all_of (λ u. selected_clean (lookup u manifest.nodes)) selected_ids
    unfolding analyze_manifest
    analyze_manifest-continues manifest [] = refl
    analyze_manifest-continues manifest (u ∷ selected_ids) =
        rw
          (
            all_of-append (findings_at search settings (lookup u manifest.nodes))
                (analyze_manifest search settings manifest selected_ids),
            at_continues (lookup u manifest.nodes),
            analyze_manifest-continues manifest selected_ids,
          )
          refl
