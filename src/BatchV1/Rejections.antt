-- ===== src/BatchV1/Rejections.antt =====
-- Errors over protocol v1: what a server says of single records is returned under their times
-- (`ProcessBatchV1`).
use reduct_cpp.Common.{
  ℕ, ◌*◌, ◌^◌, ◌<◌, ◌≡◌, refl, sym, ap, ◌∙◌, false, Option, none, some, List, [], ◌∷◌, ◌++◌, map,
  Bytes, length, ltb, ◌==◌, starts_with, cut-append, if◌then◌else◌, ok, ◌>>=◌, Error, no_error, pos,
  All, arith,
}
use reduct_cpp.Common.Numbers.{
  ns_limit, ns_of, to_string, to_string-All-IsDigit, stoull-to_string, stoi-to_string,
}
use reduct_cpp.Common.Table.{IsOrdered, find, emplace, same, nat_ord}
use reduct_cpp.Common.Emplace.{
  otherwise, otherwise-none, otherwise-if, find-emplace, emplace-IsOrdered,
}
use reduct_cpp.Format.{Fmt}
use reduct_cpp.Http.{Headers, Send}
use reduct_cpp.Batch.{Record, Batch}
use reduct_cpp.BatchV1.{
  BatchType, to_microseconds, from_microseconds, header_error_prefix, sort_records,
}
use reduct_cpp.BatchV1.Csv.{digits_bare}
use reduct_cpp.BatchV1.Process.{
  BatchErrors, unique_entries, request_v1, read_errors_v1, answer_v1, process_batch_v1,
}

-- What a server says of a record of the request, or a header that is about something else.
pub data Reply : Type 0 where
  rejected : Record → ℕ → Bytes → Reply
  unrelated : Bytes → Bytes → Reply

-- `x-reduct-error-<time>: <status>,<message>`
abbrev pub reply_header : Reply → Bytes × Bytes
reply_header (rejected r status message) = (
  header_error_prefix ++ to_string (to_microseconds r.timestamp),
  to_string status ++ b',' ∷ message,
)
reply_header (unrelated key value) = (key, value)

-- A time of the system clock, and a status that fits an `int`.
abbrev pub IsReply : Reply → Type 0
IsReply (rejected r status message) = (r.timestamp < ns_limit) × (status < 2 ^ 31)
IsReply (unrelated key value) = starts_with header_error_prefix key ≡ false

-- What is said first of the record of a time, to the microsecond.
abbrev pub first_rejection : ℕ → List Reply → Option Error
first_rejection time [] = none
first_rejection time (unrelated key value ∷ replies) = first_rejection time replies
first_rejection time (rejected r status message ∷ replies) =
    if to_microseconds r.timestamp * 1000 == time
    then some (record { code = pos status; message = message })
    else first_rejection time replies

-- Nothing wraps around for a time of the system clock.
pub back_in_ns :
    (time : ℕ) → time < ns_limit → ns_of (to_microseconds time) ≡ to_microseconds time * 1000
back_in_ns time h = omega arith

read_errors_v1_rejected :
    (r : Record) (status : ℕ) (message : Bytes) (rest : Headers) (errors : BatchErrors)
    → r.timestamp < ns_limit
    → status < 2 ^ 31
    → read_errors_v1 (reply_header (rejected r status message) ∷ rest) errors
      ≡ read_errors_v1 rest (
          emplace
            (to_microseconds r.timestamp * 1000)
            (record { code = pos status; message = message })
            errors)
unfolding read_errors_v1 from_microseconds
read_errors_v1_rejected r status message rest errors lt small =
    rw
      (
        cut-append b',' (to_string status) message
            (digits_bare (to_string status) (to_string-All-IsDigit status)),
        stoi-to_string status small,
        read_errors_v1,
      )
      (rw (stoull-to_string (to_microseconds r.timestamp) (omega arith), ◌>>=◌)
        (rw (back_in_ns r.timestamp lt) refl))

read_errors_v1_unrelated :
    (key value : Bytes) (rest : Headers) (errors : BatchErrors)
    → starts_with header_error_prefix key ≡ false
    → read_errors_v1 ((key, value) ∷ rest) errors ≡ read_errors_v1 rest errors
unfolding read_errors_v1
read_errors_v1_unrelated key value rest errors e = rw (e, read_errors_v1) refl

-- The errors that are read: those that were there, and for each time the first rejection.
abbrev Filed : List Reply → BatchErrors → Type 0
Filed replies errors =
    (read : BatchErrors) × (read_errors_v1 (map reply_header replies) errors ≡ ok read)
    × ((time : ℕ) → find time read ≡ otherwise (find time errors) (first_rejection time replies))

read_errors_v1-Filed :
    (replies : List Reply) (errors : BatchErrors)
    → All IsReply replies
    → IsOrdered errors
    → Filed replies errors
read_errors_v1-Filed [] errors h ordered =
    (errors, unfold read_errors_v1 in refl, λ time. sym (otherwise-none (find time errors)))
read_errors_v1-Filed (unrelated key value ∷ replies) errors (bare, h) ordered =
    let (read, e, found) = read_errors_v1-Filed replies errors h ordered in
    (read, read_errors_v1_unrelated key value (map reply_header replies) errors bare ∙ e, found)
read_errors_v1-Filed (rejected r status message ∷ replies) errors ((lt, small), h) ordered =
    let at = to_microseconds r.timestamp * 1000 in
    let error : Error = record { code = pos status; message = message } in
    let (read, e, found) =
      read_errors_v1-Filed replies (emplace at error errors) h
        (emplace-IsOrdered at error errors ordered) in
    (
      read,
      read_errors_v1_rejected r status message (map reply_header replies) errors lt small ∙ e,
      λ time.
          let clock : same at time ≡ (at == time) = ground arith in
          found time
          ∙ ap (λ o. otherwise o (first_rejection time replies))
              (find-emplace at time error errors ordered)
          ∙ otherwise-if (find time errors) (same at time) error (first_rejection time replies)
          ∙ rw clock refl,
    )

process_batch_v1-answer :
    {W : Type 0} (fmt : Fmt) (send : Send W) (bucket_path entry_name : Bytes) (batch : Batch)
    (type : BatchType) (w : W)
    → ltb 1 (length (unique_entries batch entry_name (sort_records batch entry_name false))) ≡ false
    → (process_batch_v1 fmt send bucket_path entry_name batch type w).0
      ≡ answer_v1
          (send
            (request_v1 fmt bucket_path entry_name batch type (sort_records batch entry_name false))
            w).0
unfolding process_batch_v1
process_batch_v1-answer fmt send bucket_path entry_name batch type w one =
    rw (one, process_batch_v1) refl

answer_v1-ok :
    (body : Bytes) (headers : Headers) (read : BatchErrors)
    → read_errors_v1 headers [] ≡ ok read
    → answer_v1 (record { result = (body, headers); error = no_error })
      ≡ ok (record { result = read; error = no_error })
answer_v1-ok body headers read e = rw e refl

-- A batch for one entry over protocol v1 whose request is answered, without an error of the request
-- itself, by headers that tell errors of single records, each named by its time in microseconds,
-- mixed with headers that are about something else: the call returns, without an error, the errors
-- by times, and for each time the first error that was told of a record at it, to the
-- microsecond, and none where none was told. The times are those of the system clock, and the
-- statuses fit an `int`.
pub process_batch_v1-first_rejection :
    {W : Type 0} (fmt : Fmt) (send : Send W) (bucket_path entry_name : Bytes) (batch : Batch)
    (type : BatchType) (w : W) (body : Bytes) (replies : List Reply)
    → ltb 1 (length (unique_entries batch entry_name (sort_records batch entry_name false))) ≡ false
    → All IsReply replies
    → (send
        (request_v1 fmt bucket_path entry_name batch type (sort_records batch entry_name false))
        w).0
      ≡ record { result = (body, map reply_header replies); error = no_error }
    → (errors : BatchErrors) × ((process_batch_v1 fmt send bucket_path entry_name batch type w).0
        ≡ ok (record { result = errors; error = no_error }))
      × ((time : ℕ) → find time errors ≡ first_rejection time replies)
unfolding find
process_batch_v1-first_rejection fmt send bucket_path entry_name batch type w body replies one told
      answered =
    let (read, e, found) = read_errors_v1-Filed replies [] told tt in
    (
      read,
      process_batch_v1-answer fmt send bucket_path entry_name batch type w one
          ∙ ap answer_v1 answered
          ∙ answer_v1-ok body (map reply_header replies) read e,
      found,
    )
