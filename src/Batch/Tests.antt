-- ===== src/Batch/Tests.antt =====
-- Examples of batches.
use reduct_cpp.Common.{◌≡◌, false, some, [], codes, ok}
use reduct_cpp.Batch.{add_record, slice}
use reduct_cpp.Batch.Valid.{IsValid}
use reduct_cpp.Batch.Added.{HasNew, HasOld, add_record-Added}
use reduct_cpp.Batch.Windows.{payload, data_at}
use reduct_cpp.Batch.Slices.{slice_ordered}
use reduct_cpp.Batch.Examples.{two_records, two_records-IsValid, two_order}
use reduct_cpp.BatchV1.{sort_records}
use reduct_cpp.BatchV1.Order.{sort_records_sorts}

add_record-Added_example :
    IsValid (add_record (codes "c") 1 (some (codes "pqr")) [] [] two_records)
    × HasNew
        (codes "c")
        1
        (some (codes "pqr"))
        []
        []
        two_records
        (add_record (codes "c") 1 (some (codes "pqr")) [] [] two_records)
    × HasOld
        (codes "c")
        1
        (some (codes "pqr"))
        []
        []
        two_records
        (add_record (codes "c") 1 (some (codes "pqr")) [] [] two_records)
add_record-Added_example =
    add_record-Added (codes "c") 1 (some (codes "pqr")) [] [] two_records two_records-IsValid

slice_ordered_example : slice two_records (some two_order) 1 3 ≡ ok (codes "yab")
unfolding payload data_at sort_records slice add_record
slice_ordered_example =
    slice_ordered two_records two_records-IsValid two_order 1 3
      (sort_records_sorts two_records [] false).0
