-- ===== src/Bucket/Manage.antt =====
-- Removing and renaming entries and records, single reads, and the calls with batches (`Remove`,
-- `RemoveEntry`, `RemoveRecord`, `Write`, `WriteBatch`, `UpdateBatch`, `RemoveBatch`, `Read`,
-- `Head`, `RenameEntry` and `Rename` of `Bucket`, and `WritableRecord`).
use reduct_cpp.Common.{
  ℕ, Bool, true, false, Option, none, some, [], ◌∷◌, ◌++◌, Bytes, codes, length, take, drop, ltb,
  if◌then◌else◌, Except, ok, thrown, Run, done, raised, undefined, Error, no_error, is_error,
  Result,
}
use reduct_cpp.Format.{Fmt}
use reduct_cpp.Json.{Json}
use reduct_cpp.Http.{delete}
use reduct_cpp.Batch.{Batch}
use reduct_cpp.BatchV1.{write, update, remove, to_microseconds}
use reduct_cpp.BatchV1.Process.{BatchErrors}
use reduct_cpp.BatchV2.Process.{BatchRecordErrors}
use reduct_cpp.Bucket.{Client, Bucket, ReadRecordCallback}
use reduct_cpp.Bucket.ReadRecord.{Caller, single, read_record}
use reduct_cpp.Bucket.Batches.{
  WritableRecord, write_record, record_path, bucket_batch_v1, bucket_batch_v2,
}

-- `WritableRecord::Write`
abbrev pub write_with : ℕ → (ℕ → ℕ → Except (Bool × Bytes)) → WritableRecord
write_with content_length callback = record { content_length = content_length; callback = callback }

-- `substr(offset, size)`, which throws behind the end.
unfoldable pub substr : Bytes → ℕ → ℕ → Except Bytes
substr text offset size =
    if ltb (length text) offset then thrown else ok (take size (drop offset text))

-- The callback of `WritableRecord::WriteAll`.
unfoldable pub whole_data : Bytes → ℕ → ℕ → Except (Bool × Bytes)
unfolding substr
whole_data text offset size = elim (substr text offset size) [
  | thrown ↦ thrown
  | ok chunk ↦ ok (true, chunk)
]

-- `WritableRecord::WriteAll`
unfoldable pub write_all : Bytes → WritableRecord
unfolding whole_data
write_all text = record { content_length = length text; callback = whole_data text }

module _ {W : Type 0} (fmt : Fmt) (client : Client W) (bucket : Bucket) where
  -- `Delete` of a path.
  unfoldable pub delete_path : Bytes → W → Error × W
  delete_path path w = let sent = client.send (delete path []) w in (sent.0.error, sent.1)

  -- `Remove`
  unfoldable pub remove_bucket : W → Error × W
  unfolding delete_path
  remove_bucket w = delete_path bucket.path w

  -- `RemoveEntry`
  unfoldable pub remove_entry : Bytes → W → Error × W
  unfolding delete_path
  remove_entry entry_name w = delete_path (bucket.path ++ b'/' ∷ entry_name) w

  -- `RemoveRecord`
  unfoldable pub remove_record : Bytes → ℕ → W → Error × W
  unfolding delete_path
  remove_record entry_name timestamp w =
      delete_path (record_path fmt client bucket entry_name timestamp) w

  -- `Write` with a time only, at the time `now`.
  unfoldable pub write_at : ℕ → Bytes → Option ℕ → WritableRecord → W → Error × W
  unfolding write_record
  write_at now entry_name ts writable w =
      write_record fmt client bucket now entry_name
        (record { timestamp = ts; labels = []; content_type = [] }) writable w

  -- `WriteBatch`, `UpdateBatch` and `RemoveBatch` of one entry, for a batch that the callback has
  -- filled.
  unfoldable pub write_batch : Bytes → Batch → W → Except (Result BatchErrors) × W
  unfolding bucket_batch_v1
  write_batch entry_name batch w = bucket_batch_v1 fmt client bucket entry_name batch write w

  unfoldable pub update_batch : Bytes → Batch → W → Except (Result BatchErrors) × W
  unfolding bucket_batch_v1
  update_batch entry_name batch w = bucket_batch_v1 fmt client bucket entry_name batch update w

  unfoldable pub remove_batch : Bytes → Batch → W → Except (Result BatchErrors) × W
  unfolding bucket_batch_v1
  remove_batch entry_name batch w = bucket_batch_v1 fmt client bucket entry_name batch remove w

  -- `WriteBatch`, `UpdateBatch` and `RemoveBatch` of several entries.
  unfoldable pub write_batch_entries : Batch → W → Except (Result BatchRecordErrors) × W
  unfolding bucket_batch_v2
  write_batch_entries batch w = bucket_batch_v2 fmt client bucket batch write w

  unfoldable pub update_batch_entries : Batch → W → Except (Result BatchRecordErrors) × W
  unfolding bucket_batch_v2
  update_batch_entries batch w = bucket_batch_v2 fmt client bucket batch update w

  unfoldable pub remove_batch_entries : Batch → W → Except (Result BatchRecordErrors) × W
  unfolding bucket_batch_v2
  remove_batch_entries batch w = bucket_batch_v2 fmt client bucket batch remove w

  -- The path of `Read` and `Head`.
  abbrev pub read_path : Bytes → Option ℕ → Bytes
  read_path entry_name none = bucket.path ++ b'/' ∷ entry_name
  read_path entry_name (some ts) =
      (bucket.path ++ b'/' ∷ entry_name) ++ (codes "?ts=" ++ fmt.uint (to_microseconds ts))

  -- The error of a result.
  abbrev pub only_error : Run (Result Bool × W) → Run (Error × W)
  only_error raised = raised
  only_error undefined = undefined
  only_error (done (r, w)) = done (r.error, w)

  module _ (caller : Caller W) (callback : ReadRecordCallback W) where
    -- `Read`
    unfoldable pub read_single : Bytes → Option ℕ → W → Run (Error × W)
    unfolding read_record
    read_single entry_name ts w =
        only_error (read_record client caller callback (read_path entry_name ts) single false w)

    -- `Head`
    unfoldable pub head_single : Bytes → Option ℕ → W → Run (Error × W)
    unfolding read_record
    head_single entry_name ts w =
        only_error (read_record client caller callback (read_path entry_name ts) single true w)

module _ {W : Type 0} (json : Json) (client : Client W) (bucket : Bucket) where
  -- The document of a new name.
  abbrev pub naming : Bytes → Except Bytes
  naming new_name = json.dump (json.set (codes "new_name") (json.text new_name) json.null)

  -- `RenameEntry`
  unfoldable pub rename_entry : Bytes → Bytes → W → Except Error × W
  rename_entry old_name new_name w = elim (naming new_name) [
    | thrown ↦ (thrown, w)
    | ok body ↦
        let answered = client.put (bucket.path ++ b'/' ∷ (old_name ++ codes "/rename")) body w in
        (ok answered.0, answered.1)
  ]

  -- What `Rename` does with the answer.
  unfoldable pub after_rename : Bytes → Error × W → Except Error × Bucket × W
  after_rename new_name (err, w) = if is_error err then (ok err, bucket, w) else (
    ok no_error,
    record bucket { path = codes "/b/" ++ new_name; io_path = codes "/io/" ++ new_name },
    w,
  )

  -- `Rename`: the paths change where the server has taken the name; `name_` stays.
  unfoldable pub rename : Bytes → W → Except Error × Bucket × W
  unfolding after_rename
  rename new_name w = elim (naming new_name) [
    | thrown ↦ (thrown, bucket, w)
    | ok body ↦ after_rename new_name (client.put (bucket.path ++ codes "/rename") body w)
  ]
