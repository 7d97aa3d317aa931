-- ===== src/Batch/Examples.antt =====
-- Batches for the examples.
use reduct_cpp.Common.{ℕ, false, some, List, [], codes}
use reduct_cpp.Batch.{Batch, add_record, empty_batch}
use reduct_cpp.Batch.Valid.{IsValid, empty_batch-IsValid, add_record-IsValid}
use reduct_cpp.BatchV1.{sort_records}

-- A batch with a later record before an earlier one, and its sending order.
abbrev pub one_record : Batch
one_record = add_record (codes "a") 2000 (some (codes "abc")) (codes "text/plain") [] empty_batch

abbrev pub two_records : Batch
two_records = add_record (codes "b") 1000 (some (codes "xy")) [] [] one_record

pub two_records-IsValid : IsValid two_records
two_records-IsValid = add_record-IsValid (codes "b") 1000 (some (codes "xy")) [] [] one_record (
    add_record-IsValid (codes "a") 2000 (some (codes "abc")) (codes "text/plain") [] empty_batch
      empty_batch-IsValid)

abbrev pub two_order : List ℕ
two_order = sort_records two_records [] false
