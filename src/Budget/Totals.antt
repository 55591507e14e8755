-- ===== src/Budget/Totals.antt =====
-- The budget depends on the totals only, and not on the order of the batches.
use dbtv.Common.{
  ℕ, ◌+◌, ◌≤◌, String, ◌≡◌, refl, ◌∙◌, ap, false, ◌==◌, eq_iff, List, [], ◌∷◌, if◌then◌else◌, ltb,
  sum_of, lookup, lookup-insert, ◌↔◌, Bool-cases, inl, inr, arith, eq_refl, ◌⊎◌,
}
use dbtv.Errors.{Result, ok, err, err-ne-ok, DbtvError}
use dbtv.Budget.Consume.{Limits, Budget, Batch, or_zero, rows_of, consume, consume_all}

abbrev pub rows_in : String → List Batch → ℕ
rows_in id batches = sum_of (λ b. if b.source_id == id then b.row_count else 0) batches

abbrev pub bytes_in : List Batch → ℕ
bytes_in batches = sum_of (λ b. b.byte_count) batches

-- The totals of every source and of the run are within the limits.
pub record Fits (limits : Limits) (b : Budget) (batches : List Batch) : Type 0 where
  pub rows_fit : (id : String) → rows_of id b + rows_in id batches ≤ limits.row_limit
  pub bytes_fit : b.extracted_bytes + bytes_in batches ≤ limits.byte_limit

Result-cases : (r : Result (Unit {0})) → (r ≡ ok tt) ⊎ ((e : DbtvError) × (r ≡ err e))
Result-cases (ok t) = inl refl
Result-cases (err e) = inr (e, refl)

rows_of-consume :
    (limits : Limits) (batch : Batch) (id : String) (b : Budget)
    → rows_of id (consume limits batch b).0
      ≡ rows_of id b + (if batch.source_id == id then batch.row_count else 0)
unfolding consume rows_of
rows_of-consume limits batch id b =
    let rows = rows_of batch.source_id b + batch.row_count in
    ap or_zero (lookup-insert batch.source_id id rows b.rows)
    ∙ elim (Bool-cases (batch.source_id == id)) [
      | inl t ↦
          rw t (
            ap (λ k. or_zero (lookup k b.rows) + batch.row_count) ((eq_iff batch.source_id id).0 t))
      | inr t ↦ rw t (omega arith)
    ]

le→ltb-false : (a b : ℕ) → a ≤ b → ltb b a ≡ false
le→ltb-false a b h = ground arith

ltb-false→le : (a b : ℕ) → ltb b a ≡ false → a ≤ b
ltb-false→le a b h = ground arith

module _ (limits : Limits) where
  extracted_by :
      (batch : Batch) (b : Budget)
      → (consume limits batch b).0.extracted_bytes ≡ b.extracted_bytes + batch.byte_count
  unfolding consume
  extracted_by batch b = refl

  Fits-consume :
      (batch : Batch) (rest : List Batch) (b : Budget)
      → Fits limits b (batch ∷ rest)
      → Fits limits (consume limits batch b).0 rest
  unfolding consume
  Fits-consume batch rest b h = record {
    rows_fit = λ id. omega (arith, h.rows_fit id, rows_of-consume limits batch id b);
    bytes_fit = omega (arith, h.bytes_fit);
  }

  consume-Fits :
      (batch : Batch) (rest : List Batch) (b : Budget)
      → Fits limits (consume limits batch b).0 rest
      → Fits limits b (batch ∷ rest)
  unfolding consume
  consume-Fits batch rest b h = record {
    rows_fit = λ id. omega (arith, h.rows_fit id, rows_of-consume limits batch id b);
    bytes_fit = omega (arith, h.bytes_fit);
  }

  -- A batch is let through exactly if the counters stay within the limits.
  consume_ok :
      (batch : Batch) (b : Budget) → Fits limits b (batch ∷ []) → (consume limits batch b).1 ≡ ok tt
  unfolding consume
  consume_ok batch b h =
      let fit = rw (eq_refl batch.source_id) at (h.rows_fit batch.source_id) in
      rw
        (
          le→ltb-false (rows_of batch.source_id b + batch.row_count) limits.row_limit
              (omega (arith, fit)),
          le→ltb-false (b.extracted_bytes + batch.byte_count) limits.byte_limit
              (omega (arith, h.bytes_fit)),
        )
        refl

  -- What a batch that is let through satisfies.
  consume-within :
      (batch : Batch) (b : Budget)
      → (consume limits batch b).1 ≡ ok tt
      → (rows_of batch.source_id b + batch.row_count ≤ limits.row_limit)
        × (b.extracted_bytes + batch.byte_count ≤ limits.byte_limit)
  unfolding consume
  consume-within batch b e =
      let rows = rows_of batch.source_id b + batch.row_count in
      let extracted = b.extracted_bytes + batch.byte_count in
      elim (Bool-cases (ltb limits.row_limit rows)) [
        | inl t ↦ err-ne-ok (rw t at e)
        | inr t ↦ elim (Bool-cases (ltb limits.byte_limit extracted)) [
          | inl u ↦ err-ne-ok (rw (t, u) at e)
          | inr u ↦
              (ltb-false→le rows limits.row_limit t, ltb-false→le extracted limits.byte_limit u)
        ]
      ]

  rows_within :
      (batch : Batch) (b : Budget) (id : String)
      → rows_of id b ≤ limits.row_limit
      → rows_of batch.source_id b + batch.row_count ≤ limits.row_limit
      → rows_of id (consume limits batch b).0 ≤ limits.row_limit
  rows_within batch b id h k = elim (Bool-cases (batch.source_id == id)) [
    | inl t ↦ omega (
      arith,
      k,
      rw t at (rows_of-consume limits batch id b),
      ap (λ j. rows_of j b) ((eq_iff batch.source_id id).0 t),
    )
    | inr t ↦ omega (arith, h, rw t at (rows_of-consume limits batch id b))
  ]

  consume-ok :
      (batch : Batch) (b : Budget)
      → Fits limits b []
      → (consume limits batch b).1 ≡ ok tt
      → Fits limits (consume limits batch b).0 []
  unfolding consume
  consume-ok batch b h e =
      let (rows, extracted) = consume-within batch b e in
      record {
        rows_fit = λ id. omega (arith, rows_within batch b id (omega (arith, h.rows_fit id)) rows);
        bytes_fit = omega (arith, extracted);
      }

  Fits-head :
      (batch : Batch) (rest : List Batch) (b : Budget)
      → Fits limits b (batch ∷ rest)
      → Fits limits b (batch ∷ [])
  Fits-head batch rest b h = record {
    rows_fit = λ id. omega (arith, h.rows_fit id);
    bytes_fit = omega (arith, h.bytes_fit);
  }

  Fits→ok :
      (batches : List Batch) (b : Budget)
      → Fits limits b batches
      → (consume_all limits batches b).1 ≡ ok tt
  unfolding consume_all
  Fits→ok [] b h = refl
  Fits→ok (batch ∷ batches) b h =
      rw (consume_ok batch b (Fits-head batch batches b h), consume_all)
        (Fits→ok batches (consume limits batch b).0 (Fits-consume batch batches b h))

  ok→Fits :
      (batches : List Batch) (b : Budget)
      → Fits limits b []
      → (consume_all limits batches b).1 ≡ ok tt
      → Fits limits b batches
  unfolding consume_all
  ok→Fits [] b w h = w
  ok→Fits (batch ∷ batches) b w h = elim (Result-cases (consume limits batch b).1) [
    | inl e ↦ consume-Fits batch batches b (
        ok→Fits batches (consume limits batch b).0 (consume-ok batch b w e)
          (rw (e, consume_all) at h))
    | inr (x, e) ↦ cc (rw (e, consume_all) at h)
  ]

  -- From counters within the limits, a sequence of batches is let through whole exactly if the total of
  -- every source and the total of all bytes are within the limits: the order of the batches, in which
  -- concurrent extractions take the lock, does not matter.
  pub consume_all_iff :
      (batches : List Batch) (b : Budget)
      → Fits limits b []
      → ((consume_all limits batches b).1 ≡ ok tt) ↔ Fits limits b batches
  consume_all_iff batches b w = (ok→Fits batches b w, Fits→ok batches b)

  -- After a sequence of batches that is let through, the counters are the totals.
  pub consume_all-totals :
      (batches : List Batch) (b : Budget) (id : String)
      → (consume_all limits batches b).1 ≡ ok tt
      → (rows_of id (consume_all limits batches b).0 ≡ rows_of id b + rows_in id batches)
        × ((consume_all limits batches b).0.extracted_bytes ≡ b.extracted_bytes + bytes_in batches)
  unfolding consume_all
  consume_all-totals [] b id h = (omega arith, omega arith)
  consume_all-totals (batch ∷ batches) b id h = elim (Result-cases (consume limits batch b).1) [
    | inl e ↦
        let (rows, extracted) =
          consume_all-totals batches (consume limits batch b).0 id (rw (e, consume_all) at h) in
        rw (e, consume_all)
          (
            omega (arith, rows, rows_of-consume limits batch id b),
            omega (arith, extracted, extracted_by batch b),
          )
    | inr (x, e) ↦ cc (rw (e, consume_all) at h)
  ]
