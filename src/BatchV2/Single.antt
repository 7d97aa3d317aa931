-- ===== src/BatchV2/Single.antt =====
-- Errors over protocol v2 of a batch for one entry: what a server says of single records is
-- returned under their times (`ProcessBatchV2`).
use mathlib.Core.Path.{subst}
use reduct_cpp.Common.{
  ℕ, ◌<◌, ◌≤◌, ◌≡◌, refl, sym, ap, ◌∙◌, false, none, List, [], ◌∷◌, map, Bytes, length, Except, ok,
  no_error, is_error, Result, All, All-get_elem?, arith,
}
use reduct_cpp.Common.Numbers.{u64_mod}
use reduct_cpp.Common.Table.{find, nat_ord}
use reduct_cpp.Format.{Fmt}
use reduct_cpp.Http.{Headers, Send}
use reduct_cpp.Batch.{Batch}
use reduct_cpp.BatchV1.{BatchType, record_at}
use reduct_cpp.BatchV1.Process.{BatchErrors}
use reduct_cpp.BatchV2.Build.{BatchRequest, build_batch_v2_request}
use reduct_cpp.BatchV2.Requests.{Named, build_batch_v2_request-Named}
use reduct_cpp.BatchV2.Process.{request_v2, read_errors_v2, answer_v2, process_batch_v2}
use reduct_cpp.BatchV2.Filed.{answer_headers, failures}
use reduct_cpp.BatchV2.Replies.{
  Reply, rejected, unrelated, IsReply, sent_for, Named-IsSent, real_time,
  build_batch_v2_request-entries,
}
use reduct_cpp.BatchV2.SingleErrors.{first_at, first_said, read_errors_v2-first_at}
use reduct_cpp.BatchV2.Answers.{answer, answer_lem, no_record}

first_at-first_said :
    (fmt : Fmt) (entry_name : Bytes) (batch : Batch) (request : BatchRequest)
    (named : All (Named fmt entry_name request) (map (record_at batch.records) request.ordered))
    (time : ℕ) (replies : List Reply)
    → All (IsReply batch request) replies
    → first_at request.start_ts time (failures (map (sent_for entry_name request) replies))
      ≡ first_said time replies
first_at-first_said fmt entry_name batch request named time [] h = refl
first_at-first_said fmt entry_name batch request named time (unrelated key value ∷ replies) (_, h) =
    first_at-first_said fmt entry_name batch request named time replies h
first_at-first_said fmt entry_name batch request named time (rejected r status message ∷ replies)
      ((_, real, (i, at)), h) =
    let (_, _, _, clock) = All-get_elem? (Named fmt entry_name request) _ i named at in
    rw
      (
        clock,
        real_time r real,
        first_at-first_said fmt entry_name batch request named time replies h,
      )
      refl

-- The request for a batch of one entry.
abbrev pub single_request : Fmt → Bytes → Batch → BatchType → BatchRequest
single_request fmt entry_name batch type =
    (build_batch_v2_request fmt entry_name batch type false).result

process_batch_v2-answer :
    {W : Type 0} (fmt : Fmt) (send : Send W) (io_path entry_name : Bytes) (batch : Batch)
    (type : BatchType) (w : W)
    → is_error (build_batch_v2_request fmt entry_name batch type false).error ≡ false
    → (process_batch_v2 fmt send io_path entry_name batch type w).0 ≡ (
        let r = single_request fmt entry_name batch type in
        answer r.ordered
          (answer_v2 r.start_ts (send (request_v2 io_path type batch r.ordered r.headers) w).0))
unfolding process_batch_v2
process_batch_v2-answer fmt send io_path entry_name batch type w fine =
    rw (fine, process_batch_v2) (answer_lem (single_request fmt entry_name batch type).ordered w _)

answer_v2-ok :
    (start_ts : ℕ) (body : Bytes) (headers : Headers) (read : BatchErrors)
    → read_errors_v2 start_ts headers [] ≡ ok read
    → answer_v2 start_ts (record { result = (body, headers); error = no_error })
      ≡ ok (record { result = read; error = no_error })
answer_v2-ok start_ts body headers read e = rw e refl

no_replies :
    (request : BatchRequest) (batch : Batch) (replies : List Reply)
    → request.ordered ≡ []
    → All (IsReply batch request) replies
    → (time : ℕ) → none ≡ first_said time replies
no_replies request batch [] e h time = refl
no_replies request batch (unrelated key value ∷ replies) e (_, h) time =
    no_replies request batch replies e h time
no_replies request batch (rejected r status message ∷ replies) e ((_, _, (i, at)), h) time =
    absurd (no_record request batch i r e at)

-- What is returned: the errors by times, each the first that was told.
abbrev Returned : Except (Result BatchErrors) → List Reply → Type 0
Returned returned replies =
    (errors : BatchErrors) × (returned ≡ ok (record { result = errors; error = no_error }))
    × ((time : ℕ) → find time errors ≡ first_said time replies)

answer-Returned :
    (request : BatchRequest) (batch : Batch) (replies : List Reply) (ordered : List ℕ)
    (resp : Except (Result BatchErrors))
    → request.ordered ≡ ordered
    → All (IsReply batch request) replies
    → Returned resp replies
    → Returned (answer ordered resp) replies
unfolding find
answer-Returned request batch replies [] resp e h returned =
    ([], refl, λ time. no_replies request batch replies e h time)
answer-Returned request batch replies (idx ∷ rest) resp e h returned = returned

-- A batch of fewer than 2 ^ 64 records for one entry whose request can be built and is answered,
-- without an error of the request itself, by headers that tell errors of records of the request,
-- each named by its entry's index and its time behind the start, of times of the system clock,
-- with a status that fits an `int`,
-- mixed with headers that tell neither errors nor entries nor a start: the call returns, without
-- an error, the errors by times, and for each time, to the microsecond, the first error that was
-- told of a record at it, and none where none was told.
pub process_batch_v2-first_said :
    {W : Type 0} (fmt : Fmt) (send : Send W) (io_path entry_name : Bytes) (batch : Batch)
    (type : BatchType) (w : W) (body : Bytes) (replies : List Reply)
    → length batch.records < u64_mod
    → is_error (build_batch_v2_request fmt entry_name batch type false).error ≡ false
    → All (IsReply batch (single_request fmt entry_name batch type)) replies
    → (send
        (request_v2 io_path type batch
          (single_request fmt entry_name batch type).ordered
          (single_request fmt entry_name batch type).headers)
        w).0
      ≡ record {
        result = (
          body,
          answer_headers
              (map (sent_for entry_name (single_request fmt entry_name batch type)) replies),
        );
        error = no_error;
      }
    → (errors : BatchErrors) × ((process_batch_v2 fmt send io_path entry_name batch type w).0
        ≡ ok (record { result = errors; error = no_error }))
      × ((time : ℕ) → find time errors ≡ first_said time replies)
unfolding find
process_batch_v2-first_said fmt send io_path entry_name batch type w body replies few fine told
      answered =
    let request = single_request fmt entry_name batch type in
    let named = build_batch_v2_request-Named fmt entry_name batch type false few fine in
    let room : length request.entries ≤ u64_mod =
      omega (arith, build_batch_v2_request-entries fmt entry_name batch type false) in
    let is_sent = Named-IsSent fmt entry_name batch request room named replies told in
    let (read, e, found) =
      read_errors_v2-first_at request.start_ts request.entries
        (map (sent_for entry_name request) replies) [] is_sent tt in
    subst (λ r. Returned r replies)
      (sym (process_batch_v2-answer fmt send io_path entry_name batch type w fine))
      (answer-Returned request batch replies request.ordered _ refl told (
        read,
        ap (answer_v2 request.start_ts) answered ∙ answer_v2-ok request.start_ts body _ read e,
        λ time.
            found time ∙ first_at-first_said fmt entry_name batch request named time replies told,
      ))
