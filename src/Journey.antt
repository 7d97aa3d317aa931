-- ===== src/Journey.antt =====
-- A batch on its whole way over protocol v1: its headers and its data as they are sent
-- (`ProcessBatchV1`, the content provider of `Post`), and as the records of a response are read
-- (`ParseAndBuildBatchedRecordsV1`, `Read`), where the server gives back what it got.
mod Tests
use mathlib.Core.Path.{ap₂}
use reduct_cpp.Common.{
  ℕ, zero, suc, ◌≤◌, ◌<◌, ◌≡◌, refl, sym, ap, ◌∙◌, Bool, false, some, List, [], ◌∷◌, map, Bytes,
  codes, length, ◌=?◌, All, done, arith,
}
use reduct_cpp.Format.{Fmt}
use reduct_cpp.Batch.{Batch, Record, ReadableRecord}
use reduct_cpp.Batch.Valid.{IsValid}
use reduct_cpp.Batch.Windows.{data_at, size_at}
use reduct_cpp.BatchV1.{
  write, record_at, sort_records, header_last, parse_and_build_batched_records_v1,
}
use reduct_cpp.BatchV1.Order.{sort_records_sorts}
use reduct_cpp.BatchV1.Process.{provider, headers_v1}
use reduct_cpp.BatchV1.Sendable.{IsRising, IsKept, all_read}
use reduct_cpp.BatchV1.Trips.{parse_and_build-headers_v1}
use reduct_cpp.HttpClient.Upload.{Upload, sent_all}
use reduct_cpp.Stream.{Queue, Arrivals, batch_v1}
use reduct_cpp.Stream.Conserve.{flat}
use reduct_cpp.Stream.Looks.{IsData}
use reduct_cpp.Stream.Turns.{read_in_turn}
use reduct_cpp.Stream.Transfer.{record_sizes, read_in_turn-payload}

-- The sizes by which records are read.
abbrev pub sizes_of : List ReadableRecord → List ℕ
sizes_of rs = map (λ (r : ReadableRecord). r.size) rs

size_at_lem : (rs : List Record) (i : ℕ) → (record_at rs i).size ≡ size_at rs i
size_at_lem [] i = refl
size_at_lem (r ∷ rs) zero = refl
size_at_lem (r ∷ rs) (suc i) = size_at_lem rs i

sizes_of-all_read :
    (flag : Bool) (b : Batch) (order : List ℕ)
    → sizes_of (all_read flag (map (record_at b.records) order)) ≡ record_sizes b order
sizes_of-all_read flag b [] = refl
sizes_of-all_read flag b (i ∷ []) = ap (λ (n : ℕ). n ∷ []) (size_at_lem b.records i)
sizes_of-all_read flag b (i ∷ j ∷ order) =
    ap₂ ◌∷◌ (size_at_lem b.records i) (sizes_of-all_read flag b (j ∷ order))

All-record_sizes :
    (b : Batch) (order : List ℕ)
    → All (λ r. 0 < r.size) (map (record_at b.records) order)
    → All (λ n. 0 < n) (record_sizes b order)
All-record_sizes b [] h = tt
All-record_sizes b (i ∷ order) (p, h) =
    (omega (arith, size_at_lem b.records i), All-record_sizes b order h)

module _ (fmt : Fmt) (b : Batch) (v : IsValid b) (entry : Bytes) where
  -- The order in which the batch is sent.
  abbrev pub sorted : List ℕ
  sorted = sort_records b entry false

  -- A valid batch to write over protocol v1, whose records each have a byte or more, in the order
  -- of `SortRecords`, and a response whose headers are those of the request with one that says
  -- whether the records are the last, and whose body is what was uploaded, cut into any chunks, all
  -- of them arrived: the records of the response are those of the batch in that order, with their
  -- times to the microsecond, and reading them in turn by their sizes gives each the data that was
  -- put into the batch for it. This holds where the whole content length was uploaded, in whatever
  -- steps, where the loop may go on for as many rounds as the batch has bytes, and for records
  -- whose headers survive: times of the system clock that rise in microseconds, with as many
  -- decimal digits each, sizes below 2 ^ 63, content types with no comma that begin with no quote,
  -- and labels ordered by their keys, with no comma, no '=' in a key and no quote in front of one.
  pub read_back-batch :
      (digits : ℕ) (text : Bytes) {sent : Bytes} (rounds : Arrivals) (queue : Queue)
      → IsRising digits (map (record_at b.records) sorted)
      → All IsKept (map (record_at b.records) sorted)
      → All (λ r. 0 < r.size) (map (record_at b.records) sorted)
      → Upload (provider b sorted) sent
      → b.size ≤ length sent
      → All IsData queue
      → All (λ arrived. arrived ≡ []) rounds
      → flat queue ≡ sent
      → b.size ≤ length rounds
      → (records : List ReadableRecord) × (records
          ≡ all_read (text =? codes "true") (map (record_at b.records) sorted))
        × (parse_and_build_batched_records_v1
              ((header_last, text) ∷ headers_v1 fmt write b sorted [])
            ≡ done records)
        × (read_in_turn batch_v1 (sizes_of records) rounds queue ≡ some (map (data_at b) sorted))
  read_back-batch digits text rounds queue rising kept full up whole data_ quiet body long =
      let flag = text =? codes "true" in
      let perm = (sort_records_sorts b entry false).0 in
      (
        all_read flag (map (record_at b.records) sorted),
        refl,
        parse_and_build-headers_v1 fmt b sorted digits text rising kept,
        ap (λ sizes. read_in_turn batch_v1 sizes rounds queue) (sizes_of-all_read flag b sorted)
            ∙ read_in_turn-payload b v batch_v1 rounds queue tt sorted
                (All-record_sizes b sorted full) data_ quiet
                (body ∙ sent_all b v sorted perm up whole) long perm,
      )
