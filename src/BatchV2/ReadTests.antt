-- ===== src/BatchV2/ReadTests.antt =====
-- Examples of reading responses of protocol v2.
use reduct_cpp.Common.{length, suc, map, no_error, is_error}
use reduct_cpp.Http.{Send}
use reduct_cpp.Common.Table.{find, nat_ord}
use reduct_cpp.BatchV1.Process.{BatchErrors}
use reduct_cpp.BatchV2.Build.{BatchRequest}
use reduct_cpp.BatchV2.Process.{process_batch_v2}
use reduct_cpp.BatchV2.SingleErrors.{first_said}
use reduct_cpp.BatchV2.Single.{single_request, process_batch_v2-first_said}
use reduct_cpp.Format.Plain.{plain_fmt}
use reduct_cpp.Batch.{Record, add_record}
use reduct_cpp.Batch.Examples.{two_records}
use reduct_cpp.BatchV1.{write, record_at, sort_records}
use reduct_cpp.BatchV2.Build.{build_batch_v2_request}
use reduct_cpp.BatchV2.Process.{BatchRecordErrors, process_batch_v2_records}
use reduct_cpp.BatchV2.Failures.{error_at}
use reduct_cpp.BatchV2.Filed.{answer_headers}
use reduct_cpp.BatchV2.Replies.{
  the_request, Reply, rejected, unrelated, IsReply, sent_for, first_rejection,
}
use reduct_cpp.BatchV2.Reported.{process_batch_v2_records-first_rejection}
use mathlib.Core.List.{Perm}
use reduct_cpp.Common.{
  ℕ, ◌<◌, ◌≡◌, refl, true, false, none, List, [], ◌∷◌, Bytes, codes, ok, All, arith,
}
use reduct_cpp.Common.Numbers.{u64_mod}
use reduct_cpp.Common.Sort.{IsSorted}
use reduct_cpp.Http.{Headers, find_header}
use reduct_cpp.Batch.{ReadableRecord}
use reduct_cpp.BatchV2.Records.{ParsedHeader, header_labels, collect_headers, build_records_v2}
use reduct_cpp.BatchV2.Reads.{IsTimely, Reads, Flagged}
use reduct_cpp.BatchV2.Collected.{Collects}
use reduct_cpp.BatchV2.Responses.{AreInOrder, label_names, says_last, build_records_v2-Reads}
use reduct_cpp.BatchV2.InTime.{IsDistinct, before_in_time, build_records_v2-IsSorted}
use reduct_cpp.BatchV2.Total.{build_records_v2-Returns}

abbrev two_entries : List Bytes
two_entries = codes "a" ∷ codes "b" ∷ []

-- The headers of three records and the flag, out of order.
abbrev three_headers : Headers
three_headers =
    (codes "x-reduct-0-5", codes "3,")
    ∷ (codes "x-reduct-1-2", codes "2,")
    ∷ (codes "x-reduct-last", codes "true")
    ∷ (codes "x-reduct-0-1", codes "4,text/plain")
    ∷ []

abbrev three_records : List ReadableRecord
three_records =
    record {
      entry = codes "a";
      timestamp = 101000;
      size = 4;
      last = false;
      labels = [];
      content_type = codes "text/plain";
    }
    ∷ record {
      entry = codes "a";
      timestamp = 105000;
      size = 3;
      last = false;
      labels = [];
      content_type = codes "text/plain";
    }
    ∷ record {
      entry = codes "b";
      timestamp = 102000;
      size = 2;
      last = true;
      labels = [];
      content_type = codes "application/octet-stream";
    }
    ∷ []

three_read : build_records_v2 two_entries 100 three_headers ≡ ok three_records
unfolding build_records_v2 find_header
three_read = refl

small : All (IsTimely 100) (collect_headers three_headers)
unfolding collect_headers
small = (omega arith, (omega arith, (omega arith, tt)))

build_records_v2-Reads_example :
    (found : List ParsedHeader) × (hs : List ParsedHeader) × Collects three_headers found
    × Perm hs found
    × AreInOrder hs
    × Reads two_entries 100 (label_names three_headers) [] hs three_records
    × Flagged (says_last three_headers) three_records
build_records_v2-Reads_example =
    build_records_v2-Reads two_entries 100 three_headers three_records small three_read

a_b : IsDistinct two_entries
a_b = (((λ e. absurd (ground (arith, e))), tt), (tt, tt))

build_records_v2-IsSorted_example : IsSorted before_in_time three_records
build_records_v2-IsSorted_example =
    build_records_v2-IsSorted two_entries 100 three_headers three_records a_b small three_read

unnamed : find_header header_labels three_headers ≡ none
unfolding find_header
unnamed = refl

build_records_v2-Returns_example :
    (rs : List ReadableRecord) × (build_records_v2 two_entries 100 three_headers ≡ ok rs)
build_records_v2-Returns_example = build_records_v2-Returns two_entries 100 three_headers unnamed

-- The record of the second entry is refused.
abbrev refused : Record
refused = record_at two_records.records 1

abbrev two_replies : List Reply
two_replies =
    unrelated (codes "content-length") (codes "0")
    ∷ rejected refused 409 (codes "exists, already")
    ∷ []

-- A server that refuses it.
abbrev refusing : Send ℕ
refusing request w = (
  record {
    result = (
      [],
      answer_headers (map (sent_for [] (the_request plain_fmt two_records write)) two_replies),
    );
    error = no_error;
  },
  suc w,
)

two_replies-IsReply :
    All (IsReply two_records (the_request plain_fmt two_records write)) two_replies
unfolding build_batch_v2_request sort_records add_record
two_replies-IsReply = ((refl, refl, refl), ((omega arith, omega arith, (1, refl)), tt))

few_records : length two_records.records < u64_mod
unfolding add_record
few_records = omega arith

built_fine : is_error (build_batch_v2_request plain_fmt [] two_records write true).error ≡ false
unfolding build_batch_v2_request sort_records add_record
built_fine = refl

process_batch_v2_records-first_rejection_example :
    (errors : BatchRecordErrors) × ((process_batch_v2_records plain_fmt refusing
        (codes "/b")
        two_records
        write
        0).0
      ≡ ok (record { result = errors; error = no_error }))
    × ((entry : Bytes) (time : ℕ)
        → error_at entry time errors ≡ first_rejection [] entry time two_replies)
process_batch_v2_records-first_rejection_example =
    process_batch_v2_records-first_rejection plain_fmt refusing (codes "/b") two_records write 0 []
      two_replies few_records built_fine two_replies-IsReply refl

-- The same for one entry.
abbrev the_single : BatchRequest
the_single = single_request plain_fmt (codes "e") two_records write

abbrev refusing_single : Send ℕ
refusing_single request w = (
  record {
    result = ([], answer_headers (map (sent_for (codes "e") the_single) two_replies));
    error = no_error;
  },
  suc w,
)

single-IsReply : All (IsReply two_records the_single) two_replies
unfolding build_batch_v2_request sort_records add_record
single-IsReply = ((refl, refl, refl), ((omega arith, omega arith, (1, refl)), tt))

single_fine :
    is_error (build_batch_v2_request plain_fmt (codes "e") two_records write false).error ≡ false
unfolding build_batch_v2_request sort_records add_record
single_fine = refl

process_batch_v2-first_said_example :
    (errors : BatchErrors) × ((process_batch_v2 plain_fmt refusing_single
        (codes "/b")
        (codes "e")
        two_records
        write
        0).0
      ≡ ok (record { result = errors; error = no_error }))
    × ((time : ℕ) → find time errors ≡ first_said time two_replies)
process_batch_v2-first_said_example =
    process_batch_v2-first_said plain_fmt refusing_single (codes "/b") (codes "e") two_records write
      0 [] two_replies few_records single_fine single-IsReply refl
