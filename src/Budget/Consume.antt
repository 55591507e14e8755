-- ===== src/Budget/Consume.antt =====
-- resources.py: `RunBudget` without the disk monitor. `consume` holds the budget's lock, so the calls
-- of concurrent extractions happen one after the other; a sequence of batches is one such order.
use dbtv.Common.{
  ℕ, ◌+◌, ◌-◌, ◌^◌, min, String, List, [], ◌∷◌, Option, none, some, if◌then◌else◌, ltb, nat_eq,
  lookup, insert,
}
use dbtv.Errors.{Result, ok, err, policy_error}
use dbtv.Config.{PolicySettings}

pub record Limits : Type 0 where
  pub row_limit : ℕ
  pub byte_limit : ℕ

pub record Budget : Type 0 where
  pub rows : List (String × ℕ)
  pub extracted_bytes : ℕ

pub record Batch : Type 0 where
  pub source_id : String
  pub row_count : ℕ
  pub byte_count : ℕ

-- `max_rows or 2**63 - 1`: a maximum of 0 counts as none.
abbrev pub or_largest : Option ℕ → ℕ
or_largest none = 2 ^ 63 - 1
or_largest (some n) = if nat_eq n 0 then 2 ^ 63 - 1 else n

-- `__init__`; `max_bytes` is what `parse_size` returns for the option when it is given.
unfoldable pub limits_of : PolicySettings → Option ℕ → Option ℕ → Limits
limits_of policy max_rows max_bytes = record {
  row_limit = min policy.max_rows_per_source (or_largest max_rows);
  byte_limit =
      min policy.max_extracted_bytes_per_run (elim max_bytes [ none ↦ 2 ^ 63 - 1 | some n ↦ n ]);
}

-- `self.rows.get(source_id, 0)`.
abbrev pub or_zero : Option ℕ → ℕ
or_zero none = 0
or_zero (some n) = n

unfoldable pub rows_of : String → Budget → ℕ
rows_of id b = or_zero (lookup id b.rows)

-- `consume`: the counters change on an error too.
unfoldable pub consume : Limits → Batch → Budget → Budget × Result (Unit {0})
unfolding rows_of
consume limits batch b =
    let rows = rows_of batch.source_id b + batch.row_count in
    let extracted = b.extracted_bytes + batch.byte_count in
    (
      record { rows = insert batch.source_id rows b.rows; extracted_bytes = extracted },
      if ltb limits.row_limit rows
          then err policy_error
          else if ltb limits.byte_limit extracted
          then err policy_error
          else ok tt,
    )

-- Batches one after the other, up to the first that raises.
unfoldable pub consume_all : Limits → List Batch → Budget → Budget × Result (Unit {0})
unfolding consume
consume_all limits [] b = (b, ok tt)
consume_all limits (batch ∷ batches) b =
    let (after, result) = consume limits batch b in
    let rest = consume_all limits batches after in
    elim result [ ok t ↦ rest | err e ↦ (after, err e) ]
