-- ===== src/BatchV1/Process.antt =====
-- Sending a batch over protocol v1 (`ProcessBatchV1` of src/reduct/internal/batch_v1.cc).
use reduct_cpp.Common.{
  ℕ, Bool, true, false, none, some, List, [], ◌∷◌, ◌++◌, Bytes, codes, length, drop, ltb,
  starts_with, cut, if◌then◌else◌, Except, ok, ◌>>=◌, Error, neg, no_error, is_error, Result,
}
use reduct_cpp.Common.Numbers.{stoi}
use reduct_cpp.Common.Table.{Table, assign, emplace, bytes_ord, nat_ord}
use reduct_cpp.Format.{Fmt}
use reduct_cpp.Http.{Headers, emplace_header, Request, post, patch, delete, Send}
use reduct_cpp.Batch.{Record, Batch, slice}
use reduct_cpp.BatchV1.{
  BatchType, write, update, remove, to_microseconds, from_microseconds, record_entry, format_labels,
  record_at, sort_records, header_time_prefix, header_error_prefix,
}

-- `IBucket::BatchErrors`
abbrev pub BatchErrors : Type 0
BatchErrors = Table ℕ Error

-- `unique_entries`, as a table of the entries in it.
unfoldable pub unique_entries : Batch → Bytes → List ℕ → Table Bytes Bool
unique_entries batch entry_name [] = []
unique_entries batch entry_name (idx ∷ rest) =
    assign (record_entry (record_at batch.records idx) entry_name) true
      (unique_entries batch entry_name rest)

-- The callback that is sent with the data of a batch.
abbrev pub provider : Batch → List ℕ → ℕ → ℕ → Except (Bool × Bytes)
provider batch ordered offset size = do
  chunk ← slice batch (some ordered) offset size
  ok (true, chunk)

abbrev pub error_of : ℕ → Bytes → Error
error_of code message = record { code = neg code; message = message }

module _ (fmt : Fmt) where
  -- The value of a record's header.
  unfoldable pub header_value_v1 : BatchType → Record → Bytes
  header_value_v1 write r =
      fmt.uint r.size ++ b',' ∷ (r.content_type ++ b',' ∷ format_labels r.labels)
  header_value_v1 update r = codes "0,," ++ format_labels r.labels
  header_value_v1 remove r = codes "0,"

  -- The loop that fills `headers`.
  unfoldable pub headers_v1 : BatchType → Batch → List ℕ → Headers → Headers
  unfolding header_value_v1
  headers_v1 type batch [] headers = headers
  headers_v1 type batch (idx ∷ rest) headers =
      let r = record_at batch.records idx in
      headers_v1 type batch rest (
        emplace_header (header_time_prefix ++ fmt.uint (to_microseconds r.timestamp))
          (header_value_v1 type r) headers)

  -- The request for a batch, by its type.
  unfoldable pub request_v1 : Bytes → Bytes → Batch → BatchType → List ℕ → Request
  unfolding headers_v1
  request_v1 bucket_path entry_name batch write ordered =
      post (bucket_path ++ b'/' ∷ (entry_name ++ codes "/batch")) (codes "application/octet-stream")
        batch.size (headers_v1 write batch ordered []) (provider batch ordered)
  request_v1 bucket_path entry_name batch update ordered =
      patch (bucket_path ++ b'/' ∷ (entry_name ++ codes "/batch")) []
        (headers_v1 update batch ordered [])
  request_v1 bucket_path entry_name batch remove ordered =
      delete (bucket_path ++ b'/' ∷ (entry_name ++ codes "/batch"))
        (headers_v1 remove batch ordered [])

-- The loop over the response's headers.
unfoldable pub read_errors_v1 : Headers → BatchErrors → Except BatchErrors
unfolding stoi
read_errors_v1 [] errors = ok errors
read_errors_v1 ((key, value) ∷ rest) errors = elim (starts_with header_error_prefix key) [
  | false ↦ read_errors_v1 rest errors
  | true ↦ elim (cut b',' value) [
    | none ↦ read_errors_v1 rest errors
    | some (code, message) ↦ stoi 10 code >>= λ status.
        from_microseconds (drop (length header_error_prefix) key) >>= λ timestamp.
        read_errors_v1 rest (emplace timestamp (record { code = status; message = message }) errors)
  ]
]

abbrev pub v2_required : Error
v2_required = record {
  code = neg 1;
  message = codes "Batch protocol v2 is required to target multiple entries in one request";
}

abbrev pub answer_v1 : Result (Bytes × Headers) → Except (Result BatchErrors)
answer_v1 resp =
    if is_error resp.error then ok (record { result = []; error = resp.error }) else (do
      errors ← read_errors_v1 resp.result.1 []
      ok (record { result = errors; error = no_error }))

-- `ProcessBatchV1`
unfoldable pub process_batch_v1 :
    {W : Type 0}
    → Fmt
    → Send W
    → Bytes
    → Bytes
    → Batch
    → BatchType
    → W
    → Except (Result BatchErrors) × W
unfolding request_v1 read_errors_v1
process_batch_v1 fmt send bucket_path entry_name batch type w =
    let ordered = sort_records batch entry_name false in
    let sent = send (request_v1 fmt bucket_path entry_name batch type ordered) w in
    if ltb 1 (length (unique_entries batch entry_name ordered))
    then (ok (record { result = []; error = v2_required }), w)
    else (answer_v1 sent.0, sent.1)
