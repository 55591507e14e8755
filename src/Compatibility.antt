-- ===== src/Compatibility.antt =====
-- compatibility.py: findings about the compiled models and about the columns of sources.
mod Rules
mod Analyze
pub mod Clean
pub mod Tests
pub use Rules.{SqlRule}
unfoldable pub use Rules.{sql_rules, supported}
unfoldable pub use Analyze.{
  severity_of, finding, rule_findings, node_findings, analyze_manifest, schema_findings,
  analyze_schema,
}
