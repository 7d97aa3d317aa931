-- ===== src/BatchV2/Records.antt =====
-- The records of a v2 response (`ParseRecordHeaderV2`, `ParseAndBuildBatchedRecordsV2`).
use reduct_cpp.Common.{
  ℕ, ◌+◌, ◌%◌, Bool, true, false, Option, none, some, List, [], ◌∷◌, Bytes, codes, length,
  get_elem?, set, replicate, ltb, ◌==◌, is_empty, cut, if◌then◌else◌, Except, ok, thrown, ◌>>=◌,
}
use reduct_cpp.Common.Numbers.{u64_mod, ns_of, stoull}
use reduct_cpp.Common.Sort.{sort}
use reduct_cpp.Http.{Headers, find_header, header_is}
use reduct_cpp.Batch.{LabelMap, ReadableRecord}
use reduct_cpp.BatchV1.{header_last}
use reduct_cpp.BatchV2.Decode.{
  trim, parse_encoded_list, parse_batched_header_name_v2, apply_label_delta,
}

abbrev pub header_entries : Bytes
header_entries = codes "x-reduct-entries"

abbrev pub header_start_ts : Bytes
header_start_ts = codes "x-reduct-start-ts"

abbrev pub header_labels : Bytes
header_labels = codes "x-reduct-labels"

-- `RecordHeaderV2`
pub record RecordHeader : Type 0 where
  pub content_length : ℕ
  pub content_type : Bytes
  pub labels : LabelMap

-- The content type and the raw labels behind the first comma.
unfoldable pub split_rest : Option Bytes → Bytes × Option Bytes
unfolding cut trim
split_rest none = ([], none)
split_rest (some rest) = elim (cut b',' rest) [
  | none ↦ (trim rest, none)
  | some (content_type, labels_raw) ↦ (trim content_type, some labels_raw)
]

-- An empty content type is the one before, or the default.
abbrev pub default_type : Option RecordHeader → Bytes
default_type none = codes "application/octet-stream"
default_type (some previous) = previous.content_type

abbrev pub base_labels : Option RecordHeader → LabelMap
base_labels none = []
base_labels (some previous) = previous.labels

abbrev pub apply_raw : Option Bytes → LabelMap → Option (List Bytes) → Except LabelMap
apply_raw none labels names = ok labels
apply_raw (some raw) labels names = apply_label_delta raw labels names

-- The header behind a length that was read.
unfoldable pub finish_header :
    ℕ → Option Bytes → Option RecordHeader → Option (List Bytes) → Except (Option RecordHeader)
unfolding split_rest apply_label_delta
finish_header content_length rest previous names = do
  labels ← apply_raw (split_rest rest).1 (base_labels previous) names
  ok (
      some (record {
        content_length = content_length;
        content_type =
            if is_empty (split_rest rest).0 then default_type previous else (split_rest rest).0;
        labels = labels;
      }))

-- The length's text, and what stands behind the first comma.
unfoldable pub split_length : Bytes → Bytes × Option Bytes
unfolding cut trim
split_length raw = elim (cut b',' raw) [
  | none ↦ (trim raw, none)
  | some (length_str, rest) ↦ (trim length_str, some rest)
]

-- `ParseRecordHeaderV2`
unfoldable pub parse_record_header_v2 :
    Bytes → Option RecordHeader → Option (List Bytes) → Except (Option RecordHeader)
unfolding split_length stoull finish_header
parse_record_header_v2 raw previous names =
    if is_empty (split_length raw).0 then ok none else (elim (stoull (split_length raw).0) [
      | thrown ↦ ok none
      | ok content_length ↦ finish_header content_length (split_length raw).1 previous names
    ])

-- `std::tuple<size_t, uint64_t, std::string>`
pub record ParsedHeader : Type 0 where
  pub entry_idx : ℕ
  pub delta : ℕ
  pub value : Bytes

-- The loop that fills `parsed_headers`.
unfoldable pub collect_headers : Headers → List ParsedHeader
unfolding parse_batched_header_name_v2
collect_headers [] = []
collect_headers ((key, value) ∷ hs) = elim (parse_batched_header_name_v2 key) [
  | none ↦ collect_headers hs
  | some (entry_idx, delta) ↦
      record { entry_idx = entry_idx; delta = delta; value = value } ∷ collect_headers hs
]

-- The comparator of `std::sort` over them.
unfoldable pub header_before : ParsedHeader → ParsedHeader → Bool
header_before lhs rhs =
    if lhs.entry_idx == rhs.entry_idx
    then ltb lhs.delta rhs.delta
    else ltb lhs.entry_idx rhs.entry_idx

-- `last_header[entry_idx]`, for an index in range.
abbrev pub last_at : List (Option RecordHeader) → ℕ → Option RecordHeader
last_at last idx = elim (get_elem? last idx) [ none ↦ none | some h ↦ h ]

-- The loop over the sorted headers.
unfoldable pub read_headers :
    List Bytes
    → ℕ
    → Option (List Bytes)
    → List ParsedHeader
    → List (Option RecordHeader)
    → Except (List ReadableRecord)
unfolding parse_record_header_v2
read_headers entries start_ts names [] last = ok []
read_headers entries start_ts names (h ∷ hs) last = elim (get_elem? entries h.entry_idx) [
  | none ↦ read_headers entries start_ts names hs last
  | some entry ↦ parse_record_header_v2 h.value (last_at last h.entry_idx) names >>= λ found.
      elim found [
        | none ↦ read_headers entries start_ts names hs last
        | some header ↦
            read_headers entries start_ts names hs (set last h.entry_idx (some header))
            >>= λ records. ok (
                record {
                  entry = entry;
                  timestamp = ns_of ((start_ts + h.delta) % u64_mod);
                  size = header.content_length;
                  last = false;
                  labels = header.labels;
                  content_type = header.content_type;
                }
                ∷ records)
      ]
]

-- `records.back().last = true`
abbrev pub mark_last : List ReadableRecord → List ReadableRecord
mark_last [] = []
mark_last (r ∷ []) = record r { last = true } ∷ []
mark_last (r ∷ s ∷ rs) = r ∷ mark_last (s ∷ rs)

-- What follows when the entries and the start are known.
unfoldable pub build_records_v2 : List Bytes → ℕ → Headers → Except (List ReadableRecord)
unfolding read_headers collect_headers header_before sort
build_records_v2 entries start_ts headers = do
  records ←
      read_headers entries start_ts
        (elim (find_header header_labels headers) [
          | none ↦ none
          | some raw ↦ some (parse_encoded_list raw)
        ])
        (sort header_before (collect_headers headers)) (replicate (length entries) none)
  ok (if header_is header_last (codes "true") headers then mark_last records else records)

-- `ParseAndBuildBatchedRecordsV2`, without the closures that read the data.
unfoldable pub parse_and_build_batched_records_v2 : Headers → Except (List ReadableRecord)
unfolding build_records_v2 find_header parse_encoded_list stoull
parse_and_build_batched_records_v2 headers = elim (find_header header_entries headers) [
  | none ↦ ok []
  | some raw ↦ elim (find_header header_start_ts headers) [
    | none ↦ ok []
    | some start ↦ elim (parse_encoded_list raw) [
      | [] ↦ ok []
      | e ∷ es ↦ elim (stoull start) [
        | thrown ↦ ok []
        | ok start_ts ↦ build_records_v2 (e ∷ es) start_ts headers
      ]
    ]
  ]
]
