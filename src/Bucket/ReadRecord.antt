-- ===== src/Bucket/ReadRecord.antt =====
-- Reading a response's records (`ReadRecord`, `ReadRecordV2`, `ParseAndBuildSingleRecord`).
use reduct_cpp.Common.{
  ℕ, Bool, false, none, some, List, [], ◌∷◌, ◌++◌, Bytes, codes, length, drop, starts_with,
  if◌then◌else◌, Except, ok, ◌>>=◌, Run, done, undefined, then_run, run, Error, is_error, Result,
}
use reduct_cpp.Common.Numbers.{stoi, to_string}
use reduct_cpp.Common.Table.{emplace, bytes_ord}
use reduct_cpp.Http.{Headers, find_header, header_is}
use reduct_cpp.Batch.{LabelMap, ReadableRecord}
use reduct_cpp.BatchV1.{from_microseconds, header_last, to_u64, parse_and_build_batched_records_v1}
use reduct_cpp.BatchV2.Records.{parse_and_build_batched_records_v2}
use reduct_cpp.Bucket.{Client, Fetched, Bucket, ReadRecordCallback}
use reduct_cpp.Bucket.Callbacks.{run_callbacks_inline, run_task, run_tasks}

abbrev pub header_label_prefix : Bytes
header_label_prefix = codes "x-reduct-label-"

abbrev pub header_time : Bytes
header_time = codes "x-reduct-time"

abbrev pub header_query_id : Bytes
header_query_id = codes "x-reduct-query-id"

-- `headers[key]`: a key that is not there stands for the empty string.
abbrev pub header_or_empty : Bytes → Headers → Bytes
header_or_empty key headers = elim (find_header key headers) [ none ↦ [] | some v ↦ v ]

-- The loop that reads the labels.
unfoldable pub header_labels : Headers → LabelMap → LabelMap
header_labels [] labels = labels
header_labels ((key, value) ∷ rest) labels = header_labels rest (
    if starts_with header_label_prefix key
    then emplace (drop (length header_label_prefix) key) value labels
    else labels)

-- `ParseAndBuildSingleRecord`, without the closure that reads the data.
unfoldable pub parse_and_build_single_record : Headers → Except ReadableRecord
unfolding header_labels from_microseconds stoi
parse_and_build_single_record headers = do
  timestamp ← from_microseconds (header_or_empty header_time headers)
  size ← stoi 10 (header_or_empty (codes "content-length") headers)
  ok (record {
    entry = [];
    timestamp = timestamp;
    size = to_u64 size;
    last = header_is header_last (codes "1") headers;
    labels = header_labels headers [];
    content_type = header_or_empty (codes "content-type") headers;
  })

-- `ReadType`
pub data ReadType : Type 0 where
  single batched : ReadType

-- The lambda `build_records` of `ReadRecord`.
abbrev pub build_by_type : ReadType → Headers → Run (List ReadableRecord)
build_by_type single headers = run (do r ← parse_and_build_single_record headers; ok (r ∷ []))
build_by_type batched headers = parse_and_build_batched_records_v1 headers

-- What happens beside a call between the response's headers and the end of the request: the worker
-- runs the next task, or more of the response arrives, which the world knows.
pub data Event (W : Type 0) : Type 0 where
  run_next : Event W
  arrives : (W → W) → Event W

-- The thread of the call: the worker itself, or another one, for which it is given what happens
-- beside it, by the world at the response's headers.
pub data Caller (W : Type 0) : Type 0 where
  worker : Caller W
  other : (W → List (Event W)) → Caller W

-- Tasks that are left behind a call that has returned: the first thing that one does is to read
-- `stopped`, a variable of that call.
abbrev pub left_behind : {A : Type 0} → List ReadableRecord → A → Run A
left_behind [] a = done a
left_behind (r ∷ left) a = undefined

module _ {W : Type 0} (client : Client W) (caller : Caller W)
    (callback : ReadRecordCallback W) where
  -- The tasks that are left, `stopped` and the world at the end of the request.
  unfoldable pub run_beside :
      List (Event W) → List ReadableRecord → Bool × W → List ReadableRecord × (Bool × W)
  unfolding run_task
  run_beside [] left s = (left, s)
  run_beside (run_next ∷ events) [] s = run_beside events [] s
  run_beside (run_next ∷ events) (r ∷ left) s = run_beside events left (run_task callback r s)
  run_beside (arrives f ∷ events) left (stopped, w) = run_beside events left (stopped, f w)

  -- What follows the tasks' queueing: a request that has failed is not waited for, otherwise the
  -- last task is.
  unfoldable pub after_tasks :
      Error → List (Event W) → List ReadableRecord → W → Run (Result Bool × W)
  unfolding run_tasks run_beside
  after_tasks err events records w =
      let beside = run_beside events records (false, w) in
      let s = run_tasks callback beside.0 beside.1 in
      if is_error err
      then left_behind beside.0 (record { result = beside.1.0; error = err }, beside.1.1)
      else done (record { result = s.0; error = err }, s.1)

  -- What `ReadRecord` and `ReadRecordV2` do with the answer to their request; the world is that at
  -- the end of the request for the worker, and that at the response's headers for other threads.
  unfoldable pub receive :
      (Headers → Run (List ReadableRecord)) → Fetched → W → Run (Result Bool × W)
  unfolding run_callbacks_inline after_tasks
  receive build fetched w = elim caller [
    | worker ↦
        if is_error fetched.error
        then done (record { result = false; error = fetched.error }, w)
        else (elim fetched.headers [
          | none ↦ undefined
          | some headers ↦ then_run (build headers) (λ records.
              let s = run_callbacks_inline callback records (false, w) in
              done (record { result = s.0; error = fetched.error }, s.1))
        ])
    | other meanwhile ↦ elim fetched.headers [
      | none ↦ done (record { result = false; error = fetched.error }, w)
      | some headers ↦
          then_run (build headers) (λ records. after_tasks fetched.error (meanwhile w) records w)
    ]
  ]

  -- `ReadRecord`
  unfoldable pub read_record : Bytes → ReadType → Bool → W → Run (Result Bool × W)
  unfolding receive
  read_record path type head w =
      let got = client.fetch head path [] w in receive (build_by_type type) got.0 got.1

  -- `ReadRecordV2`
  unfoldable pub read_record_v2 : Bucket → ℕ → Bool → W → Run (Result Bool × W)
  unfolding receive
  read_record_v2 bucket query_id head w =
      let got =
        client.fetch head (bucket.io_path ++ codes "/read")
          ((header_query_id, to_string query_id) ∷ []) w in
      receive (λ headers. run (parse_and_build_batched_records_v2 headers)) got.0 got.1
