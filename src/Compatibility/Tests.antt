-- ===== src/Compatibility/Tests.antt =====
-- A run of the analyzer with a search that finds every pattern in one text.
use dbtv.Common.{◌≡◌, true, ◌==◌, [], ◌∷◌, all_of, lookup}
use dbtv.Models.{strict}
use dbtv.Config.{CompatibilitySettings}
use dbtv.Compatibility.Analyze.{analyze_manifest}
use dbtv.Compatibility.Clean.{continues, selected_clean, analyze_manifest-continues}
use dbtv.Selection.Tests.{shop}

abbrev settings : CompatibilitySettings
settings = record {
  mode = strict;
  install_shims = true;
  allow_rules = "DBTV-SQL-001" ∷ [];
  warn_rules = [];
  deny_rules = [];
}

analyze_manifest-continues_example :
    all_of continues (analyze_manifest (λ p t. t == "flatten(x)") settings shop ("a" ∷ "s" ∷ []))
    ≡ all_of
        (λ u. selected_clean settings (λ p t. t == "flatten(x)") (lookup u shop.nodes))
        ("a" ∷ "s" ∷ [])
analyze_manifest-continues_example =
    analyze_manifest-continues settings (λ p t. t == "flatten(x)") shop ("a" ∷ "s" ∷ [])
