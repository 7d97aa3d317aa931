-- ===== src/Batch.antt =====
-- `IBucket::Batch` and the records that a bucket hands out and takes (src/reduct/bucket.h).
-- A time is a number of nanoseconds since the epoch, as in the system clock's time points; times
-- before the epoch are not modelled. The shared pointers of `body_` are the strings themselves,
-- which the callers promise not to change.
pub mod Valid
pub mod Windows
pub mod Added
pub mod Slices
pub mod Examples
mod Tests
use reduct_cpp.Common.{
  ℕ, ◌+◌, ◌-◌, ◌≤◌, ◌<◌, min, Bool, true, false, Option, none, some, List, [], ◌∷◌, ◌++◌, Bytes,
  length, get_elem?, take, drop, leb, ltb, ◌==◌, if◌then◌else◌, Except, ok, thrown,
}
use reduct_cpp.Common.Table.{Table}

-- `IBucket::LabelMap`
abbrev pub LabelMap : Type 0
LabelMap = Table Bytes Bytes

-- `IBucket::ReadableRecord` without its member `Read`, which is `Stream.read`.
pub record ReadableRecord : Type 0 where
  pub entry : Bytes
  pub timestamp : ℕ
  pub size : ℕ
  pub last : Bool
  pub labels : LabelMap
  pub content_type : Bytes

-- `IBucket::Batch::Record`
pub record Record : Type 0 where
  pub entry : Bytes
  pub timestamp : ℕ
  pub size : ℕ
  pub content_type : Bytes
  pub labels : LabelMap
  pub data_index : Option ℕ

-- `IBucket::Batch`, with the members `records_`, `body_` and `size_`.
pub record Batch : Type 0 where
  pub records : List Record
  pub body : List Bytes
  pub size : ℕ

abbrev pub empty_batch : Batch
empty_batch = record { records = []; body = []; size = 0 }

-- A null pointer to data stands for the empty string.
abbrev pub data_or_empty : Option Bytes → Bytes
data_or_empty none = []
data_or_empty (some d) = d

-- `AddRecord` with data: the overloads that take a string pass a pointer to it.
unfoldable pub add_record : Bytes → ℕ → Option Bytes → Bytes → LabelMap → Batch → Batch
add_record entry timestamp maybe content_type labels b =
    let bytes = data_or_empty maybe in
    record {
      records =
          b.records
          ++ record {
            entry = entry;
            timestamp = timestamp;
            size = length bytes;
            content_type = content_type;
            labels = labels;
            data_index = some (length b.body);
          }
            ∷ [];
      body = b.body ++ bytes ∷ [];
      size = b.size + length bytes;
    }

-- `AddOnlyLabels`
unfoldable pub add_only_labels : Bytes → ℕ → LabelMap → Batch → Batch
add_only_labels entry timestamp labels b = record b {
  records =
      b.records
      ++ record {
        entry = entry;
        timestamp = timestamp;
        size = 0;
        content_type = [];
        labels = labels;
        data_index = none;
      }
        ∷ [];
}

-- `AddRecord` without data, which is for removing.
unfoldable pub add_empty : Bytes → ℕ → Batch → Batch
unfolding add_only_labels
add_empty entry timestamp b = add_only_labels entry timestamp [] b

-- The variables that the lambda `process_data` of `Slice` captures.
pub record Progress : Type 0 where
  pub offset : ℕ
  pub size : ℕ
  pub result : Bytes

process_data : Bytes → Progress → Progress
process_data bytes p =
    if ltb p.offset (length bytes)
    then (let n = min p.size (length bytes - p.offset) in
        record { offset = 0; size = p.size - n; result = p.result ++ take n (drop p.offset bytes) })
    else record p { offset = p.offset - length bytes }

-- The loop over `body_`.
unfoldable pub slice_body : List Bytes → Progress → Bytes
unfolding process_data
slice_body [] p = p.result
slice_body (bytes ∷ rest) p =
    let q = process_data bytes p in
    elim (q.size == 0) [ true ↦ q.result | false ↦ slice_body rest q ]

-- `records_.at(idx)` and, if it has data, `*body_.at(*record.data_index)`; `at` throws for an index
-- out of range.
unfoldable pub fetch : Batch → ℕ → Except (Option Bytes)
fetch b idx = elim (get_elem? b.records idx) [
  | none ↦ thrown
  | some r ↦ elim r.data_index [
    | none ↦ ok none
    | some i ↦ elim (get_elem? b.body i) [ none ↦ thrown | some bytes ↦ ok (some bytes) ]
  ]
]

-- The loop over `*order`.
unfoldable pub slice_order : Batch → List ℕ → Progress → Except Bytes
unfolding process_data fetch
slice_order b [] p = ok p.result
slice_order b (idx ∷ rest) p = elim (fetch b idx) [
  | thrown ↦ thrown
  | ok none ↦ slice_order b rest p
  | ok (some bytes) ↦
      let q = process_data bytes p in
      elim (q.size == 0) [ true ↦ ok q.result | false ↦ slice_order b rest q ]
]

-- `Slice`
unfoldable pub slice : Batch → Option (List ℕ) → ℕ → ℕ → Except Bytes
unfolding slice_body slice_order
slice b order offset size =
    let start : Progress = record { offset = offset; size = size; result = [] } in
    if leb b.size offset
    then ok []
    else elim order [ none ↦ ok (slice_body b.body start) | some o ↦ slice_order b o start ]
