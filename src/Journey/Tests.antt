-- ===== src/Journey/Tests.antt =====
-- An example of a batch's whole way.
use reduct_cpp.Common.{◌≤◌, ◌<◌, ◌≡◌, refl, some, List, [], ◌∷◌, map, codes, ◌=?◌, All, done, arith}
use reduct_cpp.Common.Numbers.{to_string}
use reduct_cpp.Format.Plain.{plain_fmt}
use reduct_cpp.Batch.{ReadableRecord, add_record, slice}
use reduct_cpp.Batch.Examples.{two_records, two_records-IsValid, two_order}
use reduct_cpp.Batch.Windows.{data_at}
use reduct_cpp.BatchV1.{
  write, record_at, sort_records, header_last, parse_and_build_batched_records_v1,
}
use reduct_cpp.BatchV1.Process.{provider, headers_v1}
use reduct_cpp.BatchV1.Sendable.{IsRising, IsKept, all_read}
use reduct_cpp.HttpClient.{provide}
use reduct_cpp.HttpClient.Upload.{Upload, start}
use reduct_cpp.Stream.{Queue, Arrivals, batch_v1}
use reduct_cpp.Stream.Conserve.{flat}
use reduct_cpp.Stream.Turns.{read_in_turn}
use reduct_cpp.Journey.{sizes_of, read_back-batch}

two-IsRising : IsRising 1 (map (record_at two_records.records) two_order)
unfolding sort_records add_record to_string
two-IsRising = (refl, (omega arith, tt), (refl, tt, tt))

two-IsKept : All IsKept (map (record_at two_records.records) two_order)
unfolding sort_records add_record
two-IsKept = (
  (omega arith, omega arith, tt, refl, tt, tt),
  ((omega arith, omega arith, omega arith, refl, tt, tt), tt),
)

two_full : All (λ r. 0 < r.size) (map (record_at two_records.records) two_order)
unfolding sort_records add_record
two_full = (omega arith, (omega arith, tt))

uploaded : Upload (provider two_records two_order) (codes "xyabc")
unfolding sort_records provide slice add_record
uploaded = Upload.write 9 (codes "xyabc") (codes "xyabc") start refl refl

abbrev five_rounds : Arrivals
five_rounds = [] ∷ [] ∷ [] ∷ [] ∷ [] ∷ []

abbrev chunks : Queue
chunks = some (codes "xya") ∷ some (codes "bc") ∷ []

flat-chunks : flat chunks ≡ codes "xyabc"
unfolding flat
flat-chunks = refl

two_bytes : two_records.size ≤ 5
unfolding add_record
two_bytes = omega arith

read_back-batch_example :
    (records : List ReadableRecord) × (records
      ≡ all_read (codes "true" =? codes "true") (map (record_at two_records.records) two_order))
    × (parse_and_build_batched_records_v1
          ((header_last, codes "true") ∷ headers_v1 plain_fmt write two_records two_order [])
        ≡ done records)
    × (read_in_turn batch_v1 (sizes_of records) five_rounds chunks
        ≡ some (map (data_at two_records) two_order))
read_back-batch_example =
    read_back-batch plain_fmt two_records two_records-IsValid [] 1 (codes "true") five_rounds chunks
      two-IsRising two-IsKept two_full uploaded two_bytes (tt, (tt, tt))
      (refl, (refl, (refl, (refl, (refl, tt))))) flat-chunks two_bytes
