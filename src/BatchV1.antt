-- ===== src/BatchV1.antt =====
-- The helpers of both batch protocols, and protocol v1 (src/reduct/internal/batch_v1.cc,
-- headers.h).
pub mod Order
pub mod Process
pub mod Csv
pub mod Quoted
pub mod Sendable
pub mod Trips
pub mod Rejections
pub mod Texts
mod Tests
use reduct_cpp.Common.{
  ℕ, ◌+◌, ◌-◌, ◌*◌, ◌/◌, ◌%◌, Bool, true, false, not, ◌&&◌, Option, none, some, List, [], ◌∷◌, ◌++◌,
  map, Bytes, codes, length, get_elem?, take, drop, range_from, ltb, ◌==◌, ◌=?◌, ◌<?◌, is_empty,
  starts_with, ends_with, cut, getlines, join, if◌then◌else◌, Except, ok, thrown, ◌>>=◌, Run, done,
  undefined, then_run, run, ℤ, pos, negsuc, Error, no_error, is_error, Result,
}
use reduct_cpp.Common.Numbers.{u64_mod, ns_of, stoull, stoll, stoi}
use reduct_cpp.Common.Sort.{sort}
use reduct_cpp.Common.Table.{Table, assign, emplace, bytes_ord, nat_ord}
use reduct_cpp.Format.{Fmt}
use reduct_cpp.Http.{Headers, header_is, emplace_header, Request, post, patch, delete, Send}
use reduct_cpp.Batch.{LabelMap, ReadableRecord, Record, Batch, slice}

abbrev pub header_error_prefix : Bytes
header_error_prefix = codes "x-reduct-error-"

abbrev pub header_time_prefix : Bytes
header_time_prefix = codes "x-reduct-time-"

abbrev pub header_last : Bytes
header_last = codes "x-reduct-last"

-- `BatchType`
pub data BatchType : Type 0 where
  write update remove : BatchType

-- `ToMicroseconds`
abbrev pub to_microseconds : ℕ → ℕ
to_microseconds ts = ts / 1000

-- `FromMicroseconds`
unfoldable pub from_microseconds : Bytes → Except ℕ
unfolding stoull
from_microseconds ts = do us ← stoull ts; ok (ns_of us)

-- `RecordEntry`
abbrev pub record_entry : Record → Bytes → Bytes
record_entry r default_entry = if is_empty r.entry then default_entry else r.entry

-- `value.find(ch) != npos`
abbrev pub contains : ℕ → Bytes → Bool
contains b s = elim (cut b s) [ none ↦ false | some _ ↦ true ]

-- One round of the loop of `FormatLabels`.
unfoldable pub format_label : Bytes × Bytes → Bytes
unfolding cut
format_label (key, value) =
    key ++ b'=' ∷ (if contains b',' value then b'"' ∷ (value ++ b'"' ∷ []) else value)

-- `FormatLabels`
unfoldable pub format_labels : LabelMap → Bytes
unfolding format_label join
format_labels labels = join (b',' ∷ []) (map format_label labels)

-- The comparator of `SortRecords`.
unfoldable pub comes_before : Bytes → Bool → Record → Record → Bool
comes_before default_entry sort_by_entry left right =
    let left_entry = record_entry left default_entry in
    let right_entry = record_entry right default_entry in
    if sort_by_entry && not (left_entry =? right_entry)
    then left_entry <? right_entry
    else if left.timestamp == right.timestamp
    then left_entry <? right_entry
    else ltb left.timestamp right.timestamp

abbrev blank : Record
blank = record {
  entry = [];
  timestamp = 0;
  size = 0;
  content_type = [];
  labels = [];
  data_index = none;
}

-- `batch.records()[idx]`, which is only called with an index in range.
abbrev pub record_at : List Record → ℕ → Record
record_at rs idx = elim (get_elem? rs idx) [ none ↦ blank | some r ↦ r ]

-- `SortRecords`
unfoldable pub sort_records : Batch → Bytes → Bool → List ℕ
unfolding comes_before sort
sort_records batch default_entry sort_by_entry =
    sort
      (λ lhs rhs.
        comes_before default_entry sort_by_entry (record_at batch.records lhs)
          (record_at batch.records rhs))
      (range_from 0 (length batch.records))

-- The variables of the loop of `parse_csv`.
pub record CsvState : Type 0 where
  pub items : List Bytes
  pub escaped : Bytes

-- `escaped.substr(0, escaped.size() - 2)`: the count of a shorter text wraps around to all of it.
abbrev drop_last_two : Bytes → Bytes
drop_last_two s = if ltb (length s) 2 then s else take (length s - 2) s

unfoldable pub csv_item : CsvState → Bytes → CsvState
csv_item st item =
    let escaped =
      (if starts_with (b'"' ∷ []) item && is_empty st.escaped then drop 1 item else st.escaped) in
    if is_empty escaped
    then record { items = st.items ++ item ∷ []; escaped = escaped }
    else if ends_with b'"' item
    then record { items = st.items ++ drop_last_two escaped ∷ []; escaped = [] }
    else record { items = st.items; escaped = escaped ++ item }

unfoldable pub csv_items : CsvState → List Bytes → List Bytes
unfolding csv_item
csv_items st [] = st.items
csv_items st (item ∷ rest) = csv_items (csv_item st item) rest

-- The loop that reads `key=value` items into the labels.
unfoldable pub csv_labels : LabelMap → List Bytes → LabelMap
csv_labels labels [] = labels
csv_labels labels (item ∷ rest) = elim (cut b'=' item) [
  | none ↦ csv_labels labels rest
  | some (key, value) ↦ csv_labels (assign key value labels) rest
]

-- The tuple that `parse_csv` returns.
pub record CsvRow : Type 0 where
  pub size : ℤ
  pub content_type : Bytes
  pub labels : LabelMap

-- `parse_csv`: fewer than two items are read past their end.
unfoldable pub parse_csv : Bytes → Run CsvRow
unfolding csv_items csv_labels cut getlines stoll assign
parse_csv csv =
    let items = csv_items (record { items = []; escaped = [] }) (getlines b',' csv) in
    elim (get_elem? items 0) [
      | none ↦ undefined
      | some first ↦ then_run (run (stoll first)) (λ size. elim (get_elem? items 1) [
        | none ↦ undefined
        | some content_type ↦ done (record {
          size = size;
          content_type = content_type;
          labels = csv_labels [] (drop 2 items);
        })
      ])
    ]

-- A `long long` put into a `size_t`.
abbrev pub to_u64 : ℤ → ℕ
to_u64 (pos n) = n % u64_mod
to_u64 (negsuc n) = u64_mod - 1 - n % u64_mod

-- `total_records`
abbrev count_times : Headers → ℕ
count_times [] = 0
count_times ((k, v) ∷ hs) =
    if starts_with header_time_prefix k then 1 + count_times hs else count_times hs

-- `ordered_headers`
unfoldable pub order_headers : Headers → Table Bytes Bytes
order_headers [] = []
order_headers ((k, v) ∷ hs) = emplace k v (order_headers hs)

-- The loop over the ordered headers; `is_last` is the test of the response's last-header.
unfoldable pub build_records :
    ℕ → Bool → Table Bytes Bytes → List ReadableRecord → Run (List ReadableRecord)
unfolding parse_csv from_microseconds
build_records total is_last [] records = done records
build_records total is_last ((key, value) ∷ rest) records =
    elim (starts_with header_time_prefix key) [
      | false ↦ build_records total is_last rest records
      | true ↦ then_run (parse_csv value) (λ row.
          then_run (run (from_microseconds (drop (length header_time_prefix) key))) (λ timestamp.
            build_records total is_last rest (
              records
              ++ record {
                entry = [];
                timestamp = timestamp;
                size = to_u64 row.size;
                last = (length records == total - 1) && is_last;
                labels = row.labels;
                content_type = row.content_type;
              }
                ∷ [])))
    ]

-- `ParseAndBuildBatchedRecordsV1`, without the closures that read the data.
unfoldable pub parse_and_build_batched_records_v1 : Headers → Run (List ReadableRecord)
unfolding build_records order_headers
parse_and_build_batched_records_v1 headers =
    build_records (count_times headers) (header_is header_last (codes "true") headers)
      (order_headers headers) []
