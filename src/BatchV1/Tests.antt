-- ===== src/BatchV1/Tests.antt =====
-- Examples of protocol v1.
use reduct_cpp.Common.{length, codes}
use reduct_cpp.Common.{◌≡◌, refl, false, none, [], ◌∷◌, ◌++◌, map, ◌=?◌, All, done, pos, arith}
use reduct_cpp.Common.{ℕ, suc, List, false, length, codes, ltb, ok, no_error}
use reduct_cpp.Common.Table.{find, assign, nat_ord}
use reduct_cpp.Common.{◌<?◌, true}
use reduct_cpp.BatchV1.Sendable.{header_of}
use reduct_cpp.BatchV1.Texts.{parse_and_build_texts}
use reduct_cpp.Http.{Send}
use reduct_cpp.Batch.Examples.{one_record}
use reduct_cpp.BatchV1.Process.{BatchErrors, unique_entries, process_batch_v1}
use reduct_cpp.BatchV1.Rejections.{
  Reply, rejected, unrelated, reply_header, IsReply, first_rejection,
  process_batch_v1-first_rejection,
}
use reduct_cpp.Common.Numbers.{to_string}
use reduct_cpp.Format.Plain.{plain_fmt}
use reduct_cpp.Batch.{Record, add_record}
use reduct_cpp.BatchV1.{
  write, record_at, header_last, parse_csv, parse_and_build_batched_records_v1,
}
use reduct_cpp.BatchV1.Process.{header_value_v1}
use reduct_cpp.BatchV1.Quoted.{IsSplit, parse_csv_quoted}
use reduct_cpp.BatchV1.Sendable.{all_read}
use reduct_cpp.BatchV1.{sort_records}

abbrev comma_record : Record
comma_record = record {
  entry = [];
  timestamp = 0;
  size = 3;
  content_type = codes "text/plain";
  labels = (codes "k", codes "x" ++ b',' ∷ codes "y") ∷ [];
  data_index = none;
}

x_y : IsSplit (codes "k") (codes "x") (codes "y")
x_y = (
  (omega arith, omega arith, refl),
  omega arith,
  (omega arith, omega arith, refl, λ e. absurd (cc e)),
)

parse_csv_quoted_example :
    parse_csv (header_value_v1 plain_fmt write comma_record)
    ≡ done (record {
      size = pos 3;
      content_type = codes "text/plain";
      labels = (codes "k", codes "\"x") ∷ [];
    })
parse_csv_quoted_example =
    parse_csv_quoted plain_fmt comma_record (codes "k") (codes "x") (codes "y") (omega arith)
      (omega arith) refl x_y refl

-- The record of a batch for one entry is refused.
abbrev two_replies : List Reply
two_replies =
    unrelated (codes "content-length") (codes "0")
    ∷ rejected (record_at one_record.records 0) 409 (codes "exists, already")
    ∷ []

abbrev refusing : Send ℕ
refusing request w =
    (record { result = ([], map reply_header two_replies); error = no_error }, suc w)

one_entry : ltb 1 (length (unique_entries one_record [] (sort_records one_record [] false))) ≡ false
unfolding unique_entries sort_records add_record assign
one_entry = refl

two_replies-IsReply : All IsReply two_replies
unfolding add_record
two_replies-IsReply = (refl, ((omega arith, omega arith), tt))

process_batch_v1-first_rejection_example :
    (errors : BatchErrors) × ((process_batch_v1 plain_fmt refusing
        (codes "/b/x")
        []
        one_record
        write
        0).0
      ≡ ok (record { result = errors; error = no_error }))
    × ((time : ℕ) → find time errors ≡ first_rejection time two_replies)
process_batch_v1-first_rejection_example =
    process_batch_v1-first_rejection plain_fmt refusing (codes "/b/x") [] one_record write 0 []
      two_replies one_entry two_replies-IsReply refl

-- A record at 9 microseconds, and one at 10.
abbrev early : Record
early = record comma_record { timestamp = 9000; labels = [] }

abbrev late : Record
late = record comma_record { timestamp = 10000; labels = [] }

ten_nine : (to_string 10 <? to_string 9) ≡ true
unfolding to_string
ten_nine = refl

parse_and_build_texts_example :
    parse_and_build_batched_records_v1
      ((header_last, codes "true") ∷ header_of plain_fmt early ∷ header_of plain_fmt late ∷ [])
    ≡ done (all_read (codes "true" =? codes "true") (late ∷ early ∷ []))
parse_and_build_texts_example =
    parse_and_build_texts plain_fmt early late (codes "true")
      (omega arith, omega arith, omega arith, refl, tt, tt)
      (omega arith, omega arith, omega arith, refl, tt, tt) ten_nine
