-- ===== src/Bucket/Batches.antt =====
-- Writing, updating and removing records (`Write`, `Update`, `ProcessBatchV1`, `ProcessBatchV2`,
-- `FirstBatchRecordError` and `MakeHeadersFromLabels` of `Bucket`).
use reduct_cpp.Common.{
  ℕ, Bool, true, false, Option, none, some, List, [], ◌∷◌, ◌++◌, Bytes, codes, is_empty, length,
  ◌==◌, if◌then◌else◌, Except, ok, thrown, pos, Error, no_error, is_error, Result,
}
use reduct_cpp.Format.{Fmt}
use reduct_cpp.Http.{Headers, emplace_header, post, patch}
use reduct_cpp.Batch.{LabelMap, Record, Batch}
use reduct_cpp.BatchV1.{BatchType, to_microseconds}
use reduct_cpp.BatchV1.Process.{BatchErrors, process_batch_v1}
use reduct_cpp.BatchV2.Process.{BatchRecordErrors, process_batch_v2, process_batch_v2_records}
use reduct_cpp.Serialisation.{failed_with, success}
use reduct_cpp.Bucket.{Client, Bucket, supports_batch_protocol_v2}
use reduct_cpp.Bucket.ReadRecord.{header_label_prefix}

-- `MakeHeadersFromLabels`
unfoldable pub make_headers_from_labels : LabelMap → Headers → Headers
make_headers_from_labels [] headers = headers
make_headers_from_labels ((key, value) ∷ labels) headers =
    make_headers_from_labels labels (emplace_header (header_label_prefix ++ key) value headers)

-- `FirstBatchRecordError`
unfoldable pub first_batch_record_error : BatchRecordErrors → Error
first_batch_record_error [] = no_error
first_batch_record_error ((entry, []) ∷ rest) = first_batch_record_error rest
first_batch_record_error ((entry, (time, err) ∷ _) ∷ _) = err

-- The first entry that a record of a batch names.
unfoldable pub first_entry : List Record → Bytes
first_entry [] = []
first_entry (r ∷ rest) = if is_empty r.entry then first_entry rest else r.entry

abbrev pub name_required : Error
name_required = record { code = pos 400; message = codes "Entry name is required" }

abbrev pub timestamp_required : Error
timestamp_required = record { code = pos 400; message = codes "Timestamp is required" }

-- The errors of the only entry of a request.
unfoldable pub errors_of_entry :
    Bytes → Except (Result BatchErrors) → Except (Result BatchRecordErrors)
errors_of_entry entry_name thrown = thrown
errors_of_entry entry_name (ok r) =
    ok (if is_error r.error then failed_with [] r.error else success ((entry_name, r.result) ∷ []))

-- `IBucket::WriteOptions`
pub record WriteOptions : Type 0 where
  pub timestamp : Option ℕ
  pub labels : LabelMap
  pub content_type : Bytes

-- `IBucket::WritableRecord`: what the user's callback puts into it.
pub record WritableRecord : Type 0 where
  pub content_length : ℕ
  pub callback : ℕ → ℕ → Except (Bool × Bytes)

module _ {W : Type 0} (fmt : Fmt) (client : Client W) (bucket : Bucket) where
  abbrev pub record_path : Bytes → ℕ → Bytes
  record_path entry_name ts =
      bucket.path ++ b'/' ∷ (entry_name ++ (codes "?ts=" ++ fmt.uint (to_microseconds ts)))

  -- `Write` of a record at the time `now`.
  unfoldable pub write_record : ℕ → Bytes → WriteOptions → WritableRecord → W → Error × W
  unfolding make_headers_from_labels
  write_record now entry_name options writable w =
      let time = elim options.timestamp as (λ _. ℕ) [ none ↦ now | some ts ↦ ts ] in
      let content_type =
        (if is_empty options.content_type
          then codes "application/octet-stream"
          else options.content_type) in
      let sent =
        client.send
          (post (record_path entry_name time) content_type writable.content_length
            (make_headers_from_labels options.labels []) writable.callback)
          w in
      (sent.0.error, sent.1)

  -- `Update`
  unfoldable pub update_record : Bytes → WriteOptions → W → Error × W
  unfolding make_headers_from_labels
  update_record entry_name options w = elim options.timestamp [
    | none ↦ (timestamp_required, w)
    | some ts ↦
        let sent =
          client.send
            (patch (record_path entry_name ts) [] (make_headers_from_labels options.labels [])) w in
        (sent.0.error, sent.1)
  ]

  -- `ProcessBatchV1` of the bucket, for a batch that the callback has filled.
  unfoldable pub bucket_batch_v1 : Bytes → Batch → BatchType → W → Except (Result BatchErrors) × W
  unfolding supports_batch_protocol_v2
  bucket_batch_v1 entry_name batch type w = elim (supports_batch_protocol_v2 client w) [
    | thrown ↦ (thrown, w)
    | ok true ↦ process_batch_v2 fmt client.send bucket.io_path entry_name batch type w
    | ok false ↦ process_batch_v1 fmt client.send bucket.path entry_name batch type w
  ]

  -- `ProcessBatchV2` of the bucket, for a batch that the callback has filled.
  unfoldable pub bucket_batch_v2 : Batch → BatchType → W → Except (Result BatchRecordErrors) × W
  unfolding supports_batch_protocol_v2 first_entry errors_of_entry
  bucket_batch_v2 batch type w =
      let entry_name = first_entry batch.records in
      let answered = process_batch_v1 fmt client.send bucket.path entry_name batch type w in
      if length batch.records == 0
      then (ok (success []), w)
      else (elim (supports_batch_protocol_v2 client w) [
        | thrown ↦ (thrown, w)
        | ok true ↦ process_batch_v2_records fmt client.send bucket.io_path batch type w
        | ok false ↦
            if is_empty entry_name
            then (ok (failed_with [] name_required), w)
            else (errors_of_entry entry_name answered.0, answered.1)
      ])
