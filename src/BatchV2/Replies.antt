-- ===== src/BatchV2/Replies.antt =====
-- What a server says of single records of a request over protocol v2, by the names of their
-- headers.
use reduct_cpp.Common.{
  ℕ, ◌*◌, ◌%◌, ◌^◌, ◌≤◌, ◌<◌, ◌≡◌, refl, Bool, true, ◌&&◌, Option, none, some, List, [], ◌∷◌, map,
  Bytes, length, get_elem?, get_elem?-lt, length-map, ◌==◌, ◌=?◌, if◌then◌else◌, Error, pos, All,
  All-get_elem?, Option-cases, inl, inr, arith,
}
use reduct_cpp.Common.Numbers.{u64_mod, ns_limit, ns_of}
use reduct_cpp.Format.{Fmt}
use reduct_cpp.Common.Table.{bytes_ord, nat_ord}
use reduct_cpp.Batch.{Record, Batch}
use reduct_cpp.BatchV1.{BatchType, record_entry, record_at}
use reduct_cpp.BatchV2.Build.{
  BatchRequest, entry_index, time_of, delta_of, scan_records, max_u64, build_ordered,
  build_batch_v2_request,
}
use reduct_cpp.BatchV1.{sort_records}
use reduct_cpp.BatchV1.Order.{length-sort_records}
use reduct_cpp.BatchV2.Deltas.{scan_records_sound}
use reduct_cpp.BatchV2.Requests.{Named, build_ordered_missing, build_ordered_full}
use reduct_cpp.BatchV2.Failures.{Failure, is_of, first_error}
use reduct_cpp.BatchV2.Filed.{Sent, failed, other, failures, IsOther, IsSent}

-- The request names no more entries than it has records.
pub build_ordered-entries :
    (fmt : Fmt) (default_entry : Bytes) (batch : Batch) (type : BatchType) (require_entry : Bool)
    (ordered : List ℕ)
    → length (build_ordered fmt default_entry batch type require_entry ordered).result.entries
      ≤ length ordered
build_ordered-entries fmt default_entry batch type require_entry [] =
    unfold build_ordered in omega arith
build_ordered-entries fmt default_entry batch type require_entry (idx ∷ rest) =
    let sorted = map (record_at batch.records) (idx ∷ rest) in
    elim (Option-cases (scan_records default_entry require_entry sorted [] max_u64)) [
      | inl missing ↦
          rw (build_ordered_missing fmt default_entry batch type require_entry idx rest missing)
            (omega arith)
      | inr ((entries, start_ts), e) ↦
          let (_, _, count, _) =
            scan_records_sound default_entry require_entry sorted [] entries max_u64 start_ts e in
          rw
            (build_ordered_full fmt default_entry batch type require_entry idx rest entries start_ts
              e)
            (omega (arith, length-map (record_at batch.records) (idx ∷ rest)))
    ]

pub build_batch_v2_request-entries :
    (fmt : Fmt) (default_entry : Bytes) (batch : Batch) (type : BatchType) (require_entry : Bool)
    → length (build_batch_v2_request fmt default_entry batch type require_entry).result.entries
      ≤ length batch.records
unfolding build_batch_v2_request
build_batch_v2_request-entries fmt default_entry batch type require_entry = omega (
  arith,
  build_ordered-entries fmt default_entry batch type require_entry
      (sort_records batch default_entry true),
  length-sort_records batch default_entry true,
)

-- The request for a batch of several entries.
abbrev pub the_request : Fmt → Batch → BatchType → BatchRequest
the_request fmt batch type = (build_batch_v2_request fmt [] batch type true).result

-- What a server says of a request's record, or a header that is about something else.
pub data Reply : Type 0 where
  rejected : Record → ℕ → Bytes → Reply
  unrelated : Bytes → Bytes → Reply

-- A record is named by its entry's index and its time behind the start.
abbrev pub failure_of : Bytes → BatchRequest → Record → ℕ → Bytes → Failure
failure_of default_entry request r status message = record {
  entry_idx = entry_index (record_entry r default_entry) request.entries;
  delta = delta_of (time_of r) request.start_ts;
  status = status;
  message = message;
}

abbrev pub sent_for : Bytes → BatchRequest → Reply → Sent
sent_for default_entry request (rejected r status message) =
    failed (failure_of default_entry request r status message)
sent_for default_entry request (unrelated key value) = other key value

-- The record is one of the request's, at a time of the system clock, and the status an `int`.
abbrev pub IsReply : Batch → BatchRequest → Reply → Type 0
IsReply batch request (rejected r status message) =
    (status < 2 ^ 31)
    × (r.timestamp < ns_limit)
    × ((i : ℕ) × (get_elem? (map (record_at batch.records) request.ordered) i ≡ some r))
IsReply batch request (unrelated key value) = IsOther key

-- Nothing wraps around for a time of the system clock.
pub real_time :
    (r : Record) → r.timestamp < ns_limit → ns_of (time_of r % u64_mod) ≡ time_of r * 1000
real_time r h = omega arith

-- What is said first of the record of an entry at a time, to the microsecond.
abbrev pub first_rejection : Bytes → Bytes → ℕ → List Reply → Option Error
first_rejection default_entry entry time [] = none
first_rejection default_entry entry time (unrelated key value ∷ replies) =
    first_rejection default_entry entry time replies
first_rejection default_entry entry time (rejected r status message ∷ replies) =
    if (record_entry r default_entry =? entry) && time_of r * 1000 == time
    then some (record { code = pos status; message = message })
    else first_rejection default_entry entry time replies

module _ (fmt : Fmt) (default_entry : Bytes) (batch : Batch) (request : BatchRequest)
    (few : length request.entries ≤ u64_mod)
    (named : All
      (Named fmt default_entry request)
      (map (record_at batch.records) request.ordered)) where
  pub Named-IsSent :
      (replies : List Reply)
      → All (IsReply batch request) replies
      → All (IsSent request.entries) (map (sent_for default_entry request) replies)
  Named-IsSent [] h = tt
  Named-IsSent (unrelated key value ∷ replies) (o, h) = (o, Named-IsSent replies h)
  Named-IsSent (rejected r status message ∷ replies) ((lt, _, (i, at)), h) =
      let (_, _, there, _) = All-get_elem? (Named fmt default_entry request) _ i named at in
      (
        (
          omega (
            arith,
            get_elem?-lt request.entries
                (entry_index (record_entry r default_entry) request.entries) there,
          ),
          omega arith,
          lt,
          (record_entry r default_entry, there),
        ),
        Named-IsSent replies h,
      )

  pub first_error-first_rejection :
      (entry : Bytes) (time : ℕ) (replies : List Reply)
      → All (IsReply batch request) replies
      → first_error request.entries request.start_ts entry time
          (failures (map (sent_for default_entry request) replies))
        ≡ first_rejection default_entry entry time replies
  first_error-first_rejection entry time [] h = refl
  first_error-first_rejection entry time (unrelated key value ∷ replies) (_, h) =
      first_error-first_rejection entry time replies h
  first_error-first_rejection entry time (rejected r status message ∷ replies)
        ((_, real, (i, at)), h) =
      let (_, _, there, clock) = All-get_elem? (Named fmt default_entry request) _ i named at in
      let same : is_of request.entries request.start_ts entry time
            (failure_of default_entry request r status message)
          ≡ ((record_entry r default_entry =? entry) && time_of r * 1000 == time) =
        (rw (there, clock, real_time r real, is_of) refl) in
      rw (same, first_error-first_rejection entry time replies h) refl
