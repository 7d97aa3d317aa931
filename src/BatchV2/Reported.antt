-- ===== src/BatchV2/Reported.antt =====
-- Errors over protocol v2 from end to end: what a server says of single records of a request is
-- returned under these records' entries and times (`ProcessBatchV2Records`).
use mathlib.Core.Path.{subst}
use reduct_cpp.Common.{
  ℕ, ◌≤◌, ◌<◌, ◌≡◌, refl, sym, ap, ◌∙◌, true, false, none, List, [], ◌∷◌, map, Bytes, length,
  Except, ok, no_error, is_error, Result, All, arith,
}
use reduct_cpp.Common.Numbers.{u64_mod}
use reduct_cpp.Format.{Fmt}
use reduct_cpp.Common.Table.{find, bytes_ord, nat_ord}
use reduct_cpp.Http.{Send}
use reduct_cpp.Batch.{Batch}
use reduct_cpp.BatchV1.{BatchType}
use reduct_cpp.BatchV2.Build.{BatchRequest, build_batch_v2_request}
use reduct_cpp.BatchV2.Requests.{build_batch_v2_request-Named}
use reduct_cpp.BatchV2.Process.{
  BatchRecordErrors, request_v2, answer_records, read_record_errors, process_batch_v2_records,
}
use reduct_cpp.BatchV2.Failures.{AreOrdered, error_at}
use reduct_cpp.BatchV2.Filed.{
  Sent, answer_headers, IsSent, read_record_errors-Filed, response_entries-answer_headers,
  response_start-answer_headers,
}
use reduct_cpp.BatchV2.Replies.{
  the_request, Reply, rejected, unrelated, IsReply, sent_for, first_rejection,
  build_batch_v2_request-entries, Named-IsSent, first_error-first_rejection,
}
use reduct_cpp.BatchV2.Answers.{answer, answer_lem, no_record}

process_batch_v2_records-answer :
    {W : Type 0} (fmt : Fmt) (send : Send W) (io_path : Bytes) (batch : Batch) (type : BatchType)
    (w : W)
    → is_error (build_batch_v2_request fmt [] batch type true).error ≡ false
    → (process_batch_v2_records fmt send io_path batch type w).0 ≡ (
        let r = (build_batch_v2_request fmt [] batch type true).result in
        answer r.ordered (
          answer_records r.entries r.start_ts
            (send (request_v2 io_path type batch r.ordered r.headers) w).0))
unfolding process_batch_v2_records
process_batch_v2_records-answer fmt send io_path batch type w fine =
    rw (fine, process_batch_v2_records)
      (answer_lem (build_batch_v2_request fmt [] batch type true).result.ordered w _)

no_replies :
    (request : BatchRequest) (batch : Batch) (replies : List Reply)
    → request.ordered ≡ []
    → All (IsReply batch request) replies
    → (entry : Bytes) (time : ℕ) → none ≡ first_rejection [] entry time replies
no_replies request batch [] e h entry time = refl
no_replies request batch (unrelated key value ∷ replies) e (_, h) entry time =
    no_replies request batch replies e h entry time
no_replies request batch (rejected r status message ∷ replies) e ((_, _, (i, at)), h) entry time =
    absurd (no_record request batch i r e at)

nil-AreOrdered : AreOrdered []
unfolding find
nil-AreOrdered entry m h = cc

answer_records-ok :
    (entries : List Bytes) (start_ts : ℕ) (body : Bytes) (sent : List Sent)
    (read : BatchRecordErrors)
    → All (IsSent entries) sent
    → read_record_errors entries start_ts (answer_headers sent) [] ≡ ok read
    → answer_records entries start_ts
        (record { result = (body, answer_headers sent); error = no_error })
      ≡ ok (record { result = read; error = no_error })
answer_records-ok entries start_ts body sent read h e =
    rw
      (
        response_entries-answer_headers entries sent h,
        response_start-answer_headers entries start_ts sent h,
        e,
      )
      refl

-- What is returned, by whether the request has records.
abbrev Returned : Except (Result BatchRecordErrors) → List Reply → Type 0
Returned returned replies =
    (errors : BatchRecordErrors) × (returned ≡ ok (record { result = errors; error = no_error }))
    × ((entry : Bytes) (time : ℕ)
        → error_at entry time errors ≡ first_rejection [] entry time replies)

answer-Returned :
    (request : BatchRequest) (batch : Batch) (replies : List Reply) (ordered : List ℕ)
    (resp : Except (Result BatchRecordErrors))
    → request.ordered ≡ ordered
    → All (IsReply batch request) replies
    → Returned resp replies
    → Returned (answer ordered resp) replies
unfolding find
answer-Returned request batch replies [] resp e h returned =
    ([], refl, λ entry time. no_replies request batch replies e h entry time)
answer-Returned request batch replies (idx ∷ rest) resp e h returned = returned

module _ {W : Type 0} (fmt : Fmt) (send : Send W) (io_path : Bytes) (batch : Batch)
    (type : BatchType) (w : W) where
  -- A batch of fewer than 2 ^ 64 records for several entries whose request can be built and is
  -- answered, without an error of the request itself, by headers that tell errors of records of the
  -- request, each named by its entry's index and its time behind the start, of times of the system
  -- clock, with a status that fits an `int`, mixed with headers that tell neither errors nor
  -- entries nor a start: the call returns, without an error, the errors by entries and times, and
  -- under the entry and the time, to the microsecond, of a record it gives the first error that was
  -- told of it, and none where none was told.
  pub process_batch_v2_records-first_rejection :
      (body : Bytes) (replies : List Reply)
      → length batch.records < u64_mod
      → is_error (build_batch_v2_request fmt [] batch type true).error ≡ false
      → All (IsReply batch (the_request fmt batch type)) replies
      → (send
          (request_v2 io_path type batch
            (the_request fmt batch type).ordered
            (the_request fmt batch type).headers)
          w).0
        ≡ record {
          result = (body, answer_headers (map (sent_for [] (the_request fmt batch type)) replies));
          error = no_error;
        }
      → (errors : BatchRecordErrors) × ((process_batch_v2_records fmt send io_path batch type w).0
          ≡ ok (record { result = errors; error = no_error }))
        × ((entry : Bytes) (time : ℕ)
            → error_at entry time errors ≡ first_rejection [] entry time replies)
  unfolding find
  process_batch_v2_records-first_rejection body replies few fine told answered =
      let request = the_request fmt batch type in
      let named = build_batch_v2_request-Named fmt [] batch type true few fine in
      let room : length request.entries ≤ u64_mod =
        omega (arith, build_batch_v2_request-entries fmt [] batch type true) in
      let is_sent = Named-IsSent fmt [] batch request room named replies told in
      let (read, e, found) =
        read_record_errors-Filed request.entries request.start_ts
          (map (sent_for [] request) replies) [] is_sent nil-AreOrdered in
      subst (λ r. Returned r replies)
        (sym (process_batch_v2_records-answer fmt send io_path batch type w fine))
        (answer-Returned request batch replies request.ordered _ refl told (
          read,
          ap (answer_records request.entries request.start_ts) answered
              ∙ answer_records-ok request.entries request.start_ts body
                  (map (sent_for [] request) replies) read is_sent e,
          λ entry time.
              found entry time
              ∙ first_error-first_rejection fmt [] batch request room named entry time replies told,
        ))
