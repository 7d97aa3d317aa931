-- ===== src/Bucket/Tests.antt =====
-- Examples of a bucket's operations.
use reduct_cpp.Common.{
  ◌≡◌, refl, ◌<◌, ℕ, zero, suc, Bool, true, false, none, some, List, [], ◌∷◌, ◌++◌, codes, Run,
  done, Error, no_error, pos, neg, Result, arith,
}
use reduct_cpp.Common.Table.{find, bytes_ord}
use reduct_cpp.Batch.{ReadableRecord, Batch, empty_batch}
use reduct_cpp.Json.Plain.{plain_json}
use reduct_cpp.Serialisation.{QueryLinkOptions, failed_with, success}
use reduct_cpp.Common.{ok}
use reduct_cpp.Bucket.{Client, Bucket, new_bucket}
use reduct_cpp.HttpClient.{provide}
use reduct_cpp.HttpClient.Upload.{Upload, start, write}
use reduct_cpp.Bucket.Manage.{write_all, whole_data, substr, naming, rename}
use reduct_cpp.Bucket.Renames.{Renamed, rename-Renamed}
use reduct_cpp.Bucket.Callbacks.{run_callbacks_inline, run_tasks}
use reduct_cpp.Bucket.Calls.{noting, Seen, run_tasks_inline, run_callbacks_inline_sees}
use reduct_cpp.Bucket.Query.{query_loop}
use reduct_cpp.Bucket.Returns.{End, end_error, goes_on, query_loop_returns}
use reduct_cpp.Bucket.Links.{no_options}
use reduct_cpp.Bucket.Attachments.{
  AttachmentMap, Reading, label_key, attachment_batch, mark_removed, keep_attachment,
}
use reduct_cpp.Bucket.Marks.{label_update, updated, mark_removed-keep_attachment}
use reduct_cpp.Bucket.MetaReads.{nothing_read}
use reduct_cpp.Bucket.AttachmentTrip.{read_batch, keep_all-attachment_batch}
use reduct_cpp.Bucket.Meta.{latest, keep_all, keep_all-latest, IsJson}

-- A record, and the last one of a response.
abbrev first_record : ReadableRecord
first_record = record {
  entry = codes "e";
  timestamp = 1000;
  size = 2;
  last = false;
  labels = (label_key, codes "k") ∷ [];
  content_type = [];
}

abbrev last_record : ReadableRecord
last_record = record {
  entry = codes "e";
  timestamp = 2000;
  size = 2;
  last = true;
  labels = [];
  content_type = [];
}

abbrev all_records : ReadableRecord → Bool
all_records r = true

run_tasks_inline_example :
    run_tasks (noting all_records) (last_record ∷ first_record ∷ []) (false, [])
    ≡ run_callbacks_inline (noting all_records) (last_record ∷ first_record ∷ []) (false, [])
run_tasks_inline_example =
    run_tasks_inline (noting all_records) (last_record ∷ first_record ∷ []) (false, [])

run_callbacks_inline_sees_example :
    Seen (noting all_records) (first_record ∷ last_record ∷ first_record ∷ []) [] (
      run_callbacks_inline
        (noting all_records)
        (first_record ∷ last_record ∷ first_record ∷ [])
        (false, []))
run_callbacks_inline_sees_example =
    run_callbacks_inline_sees (noting all_records) (first_record ∷ last_record ∷ first_record ∷ [])
      []

-- A client whose server knows version 1.19 and answers nothing.
abbrev lost : Error
lost = record { code = neg 1; message = codes "Connection lost" }

abbrev quiet_client : Client (List ReadableRecord)
quiet_client = record {
  api_version = λ w. some (codes "1.19");
  get = λ path w. (failed_with [] lost, w);
  head = λ path w. (lost, w);
  post = λ path body w. (lost, w);
  post_with_response = λ path body w. (failed_with [] lost, w);
  put = λ path body w. (lost, w);
  fetch = λ head path headers w. (record { headers = none; error = lost }, w);
  send = λ request w. (failed_with ([], []) lost, w);
}

-- A server that gives as many answers as its state says, and then no content.
abbrev no_content : Result Bool
no_content = record { result = false; error = record { code = pos 204; message = [] } }

abbrev count_down : ℕ → Run (Result Bool × ℕ)
count_down zero = done (no_content, 0)
count_down (suc n) = done (record { result = false; error = no_error }, n)

count_down_answers :
    (n : ℕ)
    → (r : Result Bool) × (m : ℕ) × (count_down n ≡ done (r, m)) × (goes_on false r ≡ true → m < n)
count_down_answers zero = (no_content, 0, refl, λ again. absurd (cc again))
count_down_answers (suc n) =
    (record { result = false; error = no_error }, n, refl, λ again. omega arith)

query_loop_returns_example :
    (e : End count_down false 3) × (query_loop 4 count_down false 3
      ≡ some (done (end_error e.answer, e.after)))
query_loop_returns_example =
    query_loop_returns count_down false (λ n. n) count_down_answers 4 3 (omega arith)

abbrev timed : QueryLinkOptions
timed = record no_options { record_timestamp = some 5000 }

keep_all-latest_example :
    find
      (codes "k")
      (keep_all plain_json ((first_record, codes "{}") ∷ []) nothing_read).attachments
    ≡ some (codes "{}")
unfolding plain_json latest
keep_all-latest_example =
    keep_all-latest plain_json (codes "k") ((first_record, codes "{}") ∷ []) nothing_read
      ((_, refl), tt)

abbrev two_attachments : AttachmentMap
two_attachments = (codes "a", codes "{}") ∷ (codes "b", codes "{}") ∷ []

braces : IsJson plain_json (codes "{}")
unfolding plain_json
braces = (_, refl)

keep_all-attachment_batch_example :
    (b : Batch) × (attachment_batch plain_json (codes "e/$meta") 1000 two_attachments empty_batch
      ≡ some b)
    × (keep_all plain_json (read_batch b) nothing_read
        ≡ record { attachments = two_attachments; callback_err = no_error })
keep_all-attachment_batch_example =
    keep_all-attachment_batch plain_json (codes "e/$meta") 1000 two_attachments
      ((refl, tt), (tt, tt)) (braces, (braces, tt))

abbrev old_bucket : Bucket
old_bucket = new_bucket (codes "old")

renaming_written : naming plain_json quiet_client old_bucket (codes "new") ≡ ok (codes "{}")
unfolding plain_json new_bucket
renaming_written = refl

rename-Renamed_example :
    Renamed
      (codes "new")
      old_bucket
      (lost, [])
      (rename plain_json quiet_client old_bucket (codes "new") [])
rename-Renamed_example =
    rename-Renamed plain_json quiet_client old_bucket (codes "new") (codes "{}") [] renaming_written

three_bytes : Upload (write_all (codes "abc")).callback (codes "abc")
unfolding write_all whole_data substr provide
three_bytes =
    write 1 (codes "c") (codes "abc") (write 2 (codes "ab") (codes "ab") start refl refl) refl refl

abbrev two_read : Reading
two_read = record { attachments = two_attachments; callback_err = no_error }

first_key : find label_key first_record.labels ≡ some (codes "k")
unfolding find
first_key = refl

mark_removed-keep_attachment_example :
    ((mark_removed first_record empty_batch).records
      ≡ empty_batch.records ++ label_update first_record ∷ [])
    × (find
          (codes "a")
          (keep_attachment plain_json
            (updated first_record)
            (success (codes "x"))
            two_read).1.attachments
        ≡ find (codes "a") two_attachments)
mark_removed-keep_attachment_example =
    mark_removed-keep_attachment plain_json first_record empty_batch (codes "k") (codes "a")
      (codes "x") two_read first_key
