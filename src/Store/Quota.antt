-- ===== src/Store/Quota.antt =====
-- What `write` counts, and the quota of the cache.
use dbtv.Common.{
  ℕ, String, suc, ◌+◌, ◌≤◌, ◌≡◌, refl, subst, not, List, [], ◌∷◌, ◌++◌, Option, none, some, ltb,
  sum_of, arith,
}
use dbtv.Errors.{
  Result, ok, err, cache_error, extraction_error, require, >>=-eq-ok, ok_inj, err-ne-ok,
}
use dbtv.Models.{SnapshotFile}
use dbtv.Store.Settings.{Settings}
use dbtv.Store.Write.{
  ExtractionBatch, Writer, Written, write_batch, write_batches, add_part, with_part, fits_schema,
}

sum-append :
    (xs ys : List SnapshotFile)
    → sum_of (λ (f : SnapshotFile). f.size) (xs ++ ys)
      ≡ sum_of (λ (f : SnapshotFile). f.size) xs + sum_of (λ (f : SnapshotFile). f.size) ys
sum-append [] ys = omega arith
sum-append (x ∷ xs) ys = omega (arith, sum-append xs ys)

-- The rows of the batches that the iterator gave.
abbrev pub rows_given : List (Result ExtractionBatch) → ℕ
rows_given [] = 0
rows_given (err e ∷ bs) = rows_given bs
rows_given (ok b ∷ bs) = b.rows + rows_given bs

module _ (settings : Settings) (writer : Writer) (used : ℕ) where
  -- The bytes are those of the files, and with them the cache stays within its quota.
  pub record IsWithin (w : Written) : Type 0 where
    pub bytes : w.byte_count ≡ sum_of (λ (f : SnapshotFile). f.size) w.files
    pub quota : used + w.byte_count ≤ settings.maximum_size

  within : (n m : ℕ) → require (not (ltb m n)) cache_error ≡ ok tt → n ≤ m
  within n m e = ground arith

  write_batch-IsWithin :
      (index : ℕ) (b : ExtractionBatch) (w w' : Written)
      → IsWithin w
      → write_batch settings writer used index b w ≡ ok w'
      → IsWithin w' × (w'.row_count ≡ w.row_count + b.rows)
  unfolding write_batch
  write_batch-IsWithin index b w w' i h =
      let (_, _, added) =
        >>=-eq-ok (require (fits_schema settings writer w.schema b.schema) extraction_error)
          (λ _. add_part settings writer used index b w (writer.write_part index b)) h in
      part (writer.write_part index b) added
    where
      part :
          (o : Option (ℕ × String))
          → add_part settings writer used index b w o ≡ ok w'
          → IsWithin w' × (w'.row_count ≡ w.row_count + b.rows)
      part none h = err-ne-ok h
      part (some p) h =
          let (_, fits, last) =
            >>=-eq-ok
              (require (not (ltb settings.maximum_size (used + (w.byte_count + p.0)))) cache_error)
              (λ _. ok (with_part settings writer index b p w)) h in
          subst (λ (x : Written). IsWithin x × (x.row_count ≡ w.row_count + b.rows)) (ok_inj last)
            (
              record {
                bytes = omega (arith, i.bytes, sum-append w.files _);
                quota = within (used + (w.byte_count + p.0)) settings.maximum_size fits;
              },
              refl,
            )

  -- If the loop of write returns, every batch has been written: the rows are those of all batches, the
  -- bytes those of the files, and the cache with them stays within its quota if it was before.
  pub write_batches-IsWithin :
      (index : ℕ) (batches : List (Result ExtractionBatch)) (w written : Written)
      → IsWithin w
      → write_batches settings writer used index batches w ≡ ok written
      → IsWithin written × (written.row_count ≡ w.row_count + rows_given batches)
  unfolding write_batches
  write_batches-IsWithin index [] w written i h =
      subst (λ (x : Written). IsWithin x × (x.row_count ≡ w.row_count + 0)) (ok_inj h)
        (i, omega arith)
  write_batches-IsWithin index (err e ∷ bs) w written i h = err-ne-ok h
  write_batches-IsWithin index (ok b ∷ bs) w written i h =
      let (w', one, rest) =
        >>=-eq-ok (write_batch settings writer used index b w)
          (λ x. write_batches settings writer used (suc index) bs x) h in
      let (j, rows) = write_batch-IsWithin index b w w' i one in
      let (k, more) = write_batches-IsWithin (suc index) bs w' written j rest in
      (k, omega (arith, rows, more))
