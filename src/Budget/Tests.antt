-- ===== src/Budget/Tests.antt =====
-- A run of the budget.
use dbtv.Common.{
  ℕ, String, ◌≡◌, refl, ◌↔◌, List, [], ◌∷◌, lookup, insert, arith, true, Pairwise, All, any_of,
}
use dbtv.Errors.{ok}
use dbtv.Budget.Roots.{PathOf, is_relative_to, distinct_roots}
use dbtv.Budget.Disjoint.{AreApart, distinct_roots_lem}
use dbtv.Budget.Consume.{Limits, Budget, Batch, rows_of, consume, consume_all}
use dbtv.Budget.Totals.{Fits, consume_all_iff}

abbrev limits : Limits
limits = record { row_limit = 10; byte_limit = 100 }

abbrev unused : Budget
unused = record { rows = []; extracted_bytes = 0 }

abbrev batch : String → ℕ → Batch
batch id n = record { source_id = id; row_count = n; byte_count = 20 }

abbrev batches : List Batch
batches = batch "a" 4 ∷ batch "b" 9 ∷ batch "a" 6 ∷ []

unused-Fits : Fits limits unused []
unfolding rows_of lookup
unused-Fits = record { rows_fit = λ id. omega arith; bytes_fit = omega arith }

consume_all_iff_example :
    ((consume_all limits batches unused).1 ≡ ok tt) ↔ Fits limits unused batches
consume_all_iff_example = consume_all_iff limits batches unused unused-Fits

accepted : (consume_all limits batches unused).1 ≡ ok tt
unfolding consume_all consume rows_of lookup insert
accepted = refl

abbrev paths : List PathOf
paths = ("p" ∷ ".dbtv" ∷ "cache" ∷ []) ∷ ("p" ∷ ".dbtv" ∷ []) ∷ ("tmp" ∷ []) ∷ []

distinct_roots_lem_example :
    Pairwise AreApart (distinct_roots paths)
    × All (λ p. any_of (is_relative_to p) (distinct_roots paths) ≡ true) paths
distinct_roots_lem_example = distinct_roots_lem paths
