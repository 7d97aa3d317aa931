-- ===== src/BatchV2/Build.antt =====
-- The request for a batch over protocol v2 (`BuildHeaderValueV2`, `BuildBatchV2Request`).
use Prim.Native.Nat.{min}
use mathlib.Core.Option
use reduct_cpp.Common.{
  ℕ, ◌+◌, ◌-◌, ◌%◌, Bool, true, false, ◌&&◌, Option, none, some, List, [], ◌∷◌, ◌++◌, map, Bytes,
  codes, ◌=?◌, is_empty, join, if◌then◌else◌, pos, Error, no_error, Result,
}
use reduct_cpp.Common.Numbers.{u64_mod, to_string}
use reduct_cpp.Format.{Fmt}
use reduct_cpp.Http.{Headers, emplace_header}
use reduct_cpp.Batch.{Record, Batch}
use reduct_cpp.BatchV1.{
  BatchType, write, update, remove, to_microseconds, record_entry, format_labels, record_at,
  sort_records,
}
use reduct_cpp.BatchV2.Decode.{header_prefix, encode_entry_name}
use reduct_cpp.BatchV2.Records.{header_entries, header_start_ts}

-- `BuildHeaderValueV2`
unfoldable pub build_header_value_v2 : Fmt → Record → BatchType → Bytes
unfolding format_labels
build_header_value_v2 fmt record' remove = []
build_header_value_v2 fmt record' update =
    let labels = format_labels record'.labels in
    if is_empty labels then codes "0" else codes "0,," ++ labels
build_header_value_v2 fmt record' write =
    let labels = format_labels record'.labels in
    if is_empty labels
    then fmt.uint record'.size ++ b',' ∷ record'.content_type
    else fmt.uint record'.size ++ b',' ∷ (record'.content_type ++ b',' ∷ labels)

-- `BatchV2Request`
pub record BatchRequest : Type 0 where
  pub ordered : List ℕ
  pub entries : List Bytes
  pub start_ts : ℕ
  pub headers : Headers

abbrev pub no_request : BatchRequest
no_request = record { ordered = []; entries = []; start_ts = 0; headers = [] }

-- `entry_indices[entry]`: entries are numbered in the order in which they are first met.
unfoldable pub index_of : Bytes → List Bytes → Option ℕ
index_of entry [] = none
index_of entry (e ∷ es) =
    if e =? entry then some 0 else Option.map (λ (n : ℕ). n + 1) (index_of entry es)

-- `entries.push_back(entry)` for an entry that is not there.
unfoldable pub add_entry : Bytes → List Bytes → List Bytes
unfolding index_of
add_entry entry entries = elim (index_of entry entries) [
  | none ↦ entries ++ entry ∷ []
  | some n ↦ entries
]

-- The largest `uint64_t`, with which `start_ts` begins.
abbrev pub max_u64 : ℕ
max_u64 = u64_mod - 1

-- `static_cast<uint64_t>(ToMicroseconds(record.timestamp))`
abbrev pub time_of : Record → ℕ
time_of r = to_microseconds r.timestamp % u64_mod

-- The first loop, over the records in their order; `none` is the error for a missing entry.
unfoldable pub scan_records : Bytes → Bool → List Record → List Bytes → ℕ → Option (List Bytes × ℕ)
unfolding add_entry
scan_records default_entry require_entry [] entries start_ts = some (entries, start_ts)
scan_records default_entry require_entry (r ∷ rs) entries start_ts =
    elim (require_entry && is_empty (record_entry r default_entry)) [
      | true ↦ none
      | false ↦
          scan_records default_entry require_entry rs
            (add_entry (record_entry r default_entry) entries) (min start_ts (time_of r))
    ]

-- `entry_indices[entry]` in the second loop, where the entry is always there.
abbrev pub entry_index : Bytes → List Bytes → ℕ
entry_index entry entries = elim (index_of entry entries) [ none ↦ 0 | some n ↦ n ]

-- The header of a record: its name holds the entry's index and the time behind the start.
unfoldable pub record_header_name : Fmt → ℕ → ℕ → Bytes
record_header_name fmt idx delta = header_prefix ++ (fmt.uint idx ++ b'-' ∷ fmt.uint delta)

-- `ts - request.start_ts` of unsigned numbers.
abbrev pub delta_of : ℕ → ℕ → ℕ
delta_of ts start_ts = (ts + u64_mod - start_ts) % u64_mod

-- The second loop.
unfoldable pub add_headers :
    Fmt → BatchType → Bytes → List Bytes → ℕ → List Record → Headers → Headers
unfolding build_header_value_v2 index_of record_header_name emplace_header
add_headers fmt type default_entry entries start_ts [] headers = headers
add_headers fmt type default_entry entries start_ts (r ∷ rs) headers =
    add_headers fmt type default_entry entries start_ts rs (
      emplace_header
        (record_header_name fmt (entry_index (record_entry r default_entry) entries)
          (delta_of (time_of r) start_ts))
        (build_header_value_v2 fmt r type) headers)

-- The two headers that come before those of the records.
unfoldable pub first_headers : Fmt → List Bytes → ℕ → Headers
unfolding encode_entry_name join to_string emplace_header
first_headers fmt entries start_ts =
    emplace_header header_start_ts (to_string start_ts)
      (emplace_header header_entries (join (b',' ∷ []) (map (encode_entry_name fmt) entries)) [])

abbrev pub entry_required : Error
entry_required = record { code = pos 400; message = codes "Entry name is required" }

-- What `BuildBatchV2Request` does once the records are sorted.
unfoldable pub build_ordered : Fmt → Bytes → Batch → BatchType → Bool → List ℕ → Result BatchRequest
unfolding scan_records add_headers first_headers
build_ordered fmt default_entry batch type require_entry [] = record {
  result = no_request;
  error = no_error;
}
build_ordered fmt default_entry batch type require_entry (idx ∷ rest) =
    let sorted = map (record_at batch.records) (idx ∷ rest) in
    elim (scan_records default_entry require_entry sorted [] max_u64) [
      | none ↦ record { result = no_request; error = entry_required }
      | some (entries, start_ts) ↦ record {
        result = record {
          ordered = idx ∷ rest;
          entries = entries;
          start_ts = start_ts;
          headers =
              add_headers fmt type default_entry entries start_ts sorted
                (first_headers fmt entries start_ts);
        };
        error = no_error;
      }
    ]

-- `BuildBatchV2Request`
unfoldable pub build_batch_v2_request : Fmt → Bytes → Batch → BatchType → Bool → Result BatchRequest
unfolding sort_records build_ordered
build_batch_v2_request fmt default_entry batch type require_entry =
    build_ordered fmt default_entry batch type require_entry (sort_records batch default_entry true)
