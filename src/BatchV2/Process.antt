-- ===== src/BatchV2/Process.antt =====
-- Sending a batch over protocol v2 and reading the errors of its records (`SendBatchV2`,
-- `ProcessBatchV2`, `ProcessBatchV2Records`).
use reduct_cpp.Common.{
  ℕ, ◌+◌, ◌%◌, true, false, none, some, List, [], ◌∷◌, ◌++◌, Bytes, codes, length, get_elem?, drop,
  starts_with, cut, rcut, if◌then◌else◌, Except, ok, ◌>>=◌, or_else, Error, no_error, is_error,
  Result,
}
use reduct_cpp.Common.Numbers.{u64_mod, to_string, stoull, stoi}
use reduct_cpp.Common.Table.{Table, find, assign, emplace, bytes_ord, nat_ord}
use reduct_cpp.Format.{Fmt}
use reduct_cpp.Http.{Headers, find_header, Request, post, patch, delete, Send}
use reduct_cpp.Batch.{Batch}
use reduct_cpp.BatchV1.{BatchType, write, update, remove, header_error_prefix, from_microseconds}
use reduct_cpp.BatchV1.Process.{BatchErrors, provider}
use reduct_cpp.BatchV2.Decode.{parse_encoded_list}
use reduct_cpp.BatchV2.Records.{header_entries, header_start_ts}
use reduct_cpp.BatchV2.Build.{build_batch_v2_request}

-- `IBucket::BatchRecordErrors`
abbrev pub BatchRecordErrors : Type 0
BatchRecordErrors = Table Bytes BatchErrors

-- The request of `SendBatchV2`.
unfoldable pub request_v2 : Bytes → BatchType → Batch → List ℕ → Headers → Request
request_v2 io_path write batch ordered headers =
    post (io_path ++ codes "/write") (codes "application/octet-stream") batch.size headers
      (provider batch ordered)
request_v2 io_path update batch ordered headers = patch (io_path ++ codes "/update") [] headers
request_v2 io_path remove batch ordered headers = delete (io_path ++ codes "/remove") headers

-- `FromMicroseconds(std::to_string(start_ts + delta))`
unfoldable pub time_behind : ℕ → ℕ → Except ℕ
unfolding from_microseconds to_string
time_behind start_ts delta = from_microseconds (to_string ((start_ts + delta) % u64_mod))

-- An error's status, time and message behind the parts of its header.
pub record RecordError : Type 0 where
  pub timestamp : ℕ
  pub error : Error

unfoldable pub read_record_error : ℕ → ℕ → Bytes → Bytes → Except RecordError
unfolding stoi time_behind
read_record_error start_ts delta code message = stoi 10 code >>= λ status.
    time_behind start_ts delta >>= λ timestamp.
    ok (record { timestamp = timestamp; error = record { code = status; message = message } })

-- The loop of `ProcessBatchV2` over the response's headers.
unfoldable pub read_errors_v2 : ℕ → Headers → BatchErrors → Except BatchErrors
unfolding rcut cut stoull read_record_error emplace
read_errors_v2 start_ts [] errors = ok errors
read_errors_v2 start_ts ((key, value) ∷ rest) errors = elim (starts_with header_error_prefix key) [
  | false ↦ read_errors_v2 start_ts rest errors
  | true ↦ elim (rcut b'-' (drop (length header_error_prefix) key)) [
    | none ↦ read_errors_v2 start_ts rest errors
    | some (entry, number) ↦ stoull number >>= λ delta. elim (cut b',' value) [
      | none ↦ read_errors_v2 start_ts rest errors
      | some (code, message) ↦ read_record_error start_ts delta code message >>= λ e.
          read_errors_v2 start_ts rest (emplace e.timestamp e.error errors)
    ]
  ]
]

abbrev pub answer_v2 : ℕ → Result (Bytes × Headers) → Except (Result BatchErrors)
answer_v2 start_ts resp =
    if is_error resp.error then ok (record { result = []; error = resp.error }) else (do
      errors ← read_errors_v2 start_ts resp.result.1 []
      ok (record { result = errors; error = no_error }))

-- `ProcessBatchV2`
unfoldable pub process_batch_v2 :
    {W : Type 0}
    → Fmt
    → Send W
    → Bytes
    → Bytes
    → Batch
    → BatchType
    → W
    → Except (Result BatchErrors) × W
unfolding build_batch_v2_request request_v2 read_errors_v2
process_batch_v2 fmt send io_path entry_name batch type w =
    let built = build_batch_v2_request fmt entry_name batch type false in
    let r = built.result in
    let sent = send (request_v2 io_path type batch r.ordered r.headers) w in
    if is_error built.error
    then (ok (record { result = []; error = built.error }), w)
    else (elim r.ordered [
      | [] ↦ (ok (record { result = []; error = no_error }), w)
      | idx ∷ rest ↦ (answer_v2 r.start_ts sent.0, sent.1)
    ])

-- The entries that a response names, or those of the request.
unfoldable pub response_entries : Headers → List Bytes → List Bytes
unfolding find_header parse_encoded_list
response_entries headers entries = elim (find_header header_entries headers) [
  | none ↦ entries
  | some raw ↦ elim (parse_encoded_list raw) [ [] ↦ entries | e ∷ es ↦ e ∷ es ]
]

-- The start that a response names, or that of the request.
unfoldable pub response_start : Headers → ℕ → ℕ
unfolding find_header stoull
response_start headers start_ts = elim (find_header header_start_ts headers) [
  | none ↦ start_ts
  | some raw ↦ or_else (stoull raw) start_ts
]

-- `errors[entry].emplace(timestamp, error)`
unfoldable pub add_error : Bytes → RecordError → BatchRecordErrors → BatchRecordErrors
unfolding find assign emplace
add_error entry e errors =
    assign entry
      (emplace e.timestamp e.error (elim (find entry errors) [ none ↦ [] | some old ↦ old ])) errors

-- The loop of `ProcessBatchV2Records` over the response's headers.
unfoldable pub read_record_errors :
    List Bytes → ℕ → Headers → BatchRecordErrors → Except BatchRecordErrors
unfolding rcut cut stoull read_record_error add_error
read_record_errors entries start_ts [] errors = ok errors
read_record_errors entries start_ts ((key, value) ∷ rest) errors =
    elim (starts_with header_error_prefix key) [
      | false ↦ read_record_errors entries start_ts rest errors
      | true ↦ elim (rcut b'-' (drop (length header_error_prefix) key)) [
        | none ↦ read_record_errors entries start_ts rest errors
        | some (index, number) ↦ stoull index >>= λ entry_idx. elim (get_elem? entries entry_idx) [
          | none ↦ read_record_errors entries start_ts rest errors
          | some entry ↦ stoull number >>= λ delta. elim (cut b',' value) [
            | none ↦ read_record_errors entries start_ts rest errors
            | some (code, message) ↦ read_record_error start_ts delta code message >>= λ e.
                read_record_errors entries start_ts rest (add_error entry e errors)
          ]
        ]
      ]
    ]

abbrev pub answer_records :
    List Bytes → ℕ → Result (Bytes × Headers) → Except (Result BatchRecordErrors)
answer_records entries start_ts resp =
    if is_error resp.error then ok (record { result = []; error = resp.error }) else (do
      errors ←
          read_record_errors (response_entries resp.result.1 entries)
            (response_start resp.result.1 start_ts) resp.result.1 []
      ok (record { result = errors; error = no_error }))

-- `ProcessBatchV2Records`
unfoldable pub process_batch_v2_records :
    {W : Type 0}
    → Fmt
    → Send W
    → Bytes
    → Batch
    → BatchType
    → W
    → Except (Result BatchRecordErrors) × W
unfolding build_batch_v2_request request_v2 read_record_errors response_entries response_start
process_batch_v2_records fmt send io_path batch type w =
    let built = build_batch_v2_request fmt [] batch type true in
    let r = built.result in
    let sent = send (request_v2 io_path type batch r.ordered r.headers) w in
    if is_error built.error
    then (ok (record { result = []; error = built.error }), w)
    else (elim r.ordered [
      | [] ↦ (ok (record { result = []; error = no_error }), w)
      | idx ∷ rest ↦ (answer_records r.entries r.start_ts sent.0, sent.1)
    ])
