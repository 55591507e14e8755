-- ===== src/Compatibility/Rules.antt =====
-- compatibility.py: the table of rules on SQL text. A pattern is the text of a regular expression.
use dbtv.Common.{String, Bool, true, false, ◌||◌, ◌==◌, List, [], ◌∷◌}

pub record SqlRule : Type 0 where
  pub rule_id : String
  pub pattern : String
  pub blocking : Bool

-- `_SQL_RULES`.
abbrev pub sql_rules : List SqlRule
sql_rules =
    (record {
      rule_id = "DBTV-SQL-001";
      pattern = "\\btable\\s*\\(\\s*generator\\s*\\(";
      blocking = true;
    })
    ∷ (record {
      rule_id = "DBTV-SQL-002";
      pattern = "\\b(?:lateral\\s+)?flatten\\s*\\(";
      blocking = true;
    })
    ∷ (record { rule_id = "DBTV-SQL-003"; pattern = "\\bresult_scan\\s*\\("; blocking = true })
    ∷ (record {
      rule_id = "DBTV-SQL-004";
      pattern = "::\\s*(?:variant|object)\\b";
      blocking = true;
    })
    ∷ (record { rule_id = "DBTV-SQL-005"; pattern = "(?<!\\.)\\bdateadd\\s*\\("; blocking = true })
    ∷ (record {
      rule_id = "DBTV-TARGET-001";
      pattern = "\\btarget\\.(?:name|type)\\b";
      blocking = false;
    })
    ∷ []

-- The materializations that run locally.
unfoldable pub supported : String → Bool
supported m = m == "view" || m == "table" || m == "ephemeral" || m == "incremental"

-- A decimal type of more than 38 digits.
abbrev pub wide_decimal : String
wide_decimal = "decimal(?:128|256)?\\((?:3[9]|[4-9]\\d|\\d{3,}),"
