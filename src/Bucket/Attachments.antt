-- ===== src/Bucket/Attachments.antt =====
-- Attachments, which are records of the entry `$meta` below an entry (`WriteAttachments`,
-- `ReadAttachments`, `RemoveAttachments`).
use reduct_cpp.Common.{
  ℕ, ◌+◌, ◌*◌, ◌/◌, Bool, true, false, Option, none, some, [], ◌∷◌, ◌++◌, Bytes, codes, starts_with,
  ◌=?◌, length, ◌==◌, if◌then◌else◌, Except, ok, thrown, Error, no_error, is_error, Result,
}
use reduct_cpp.Common.Table.{Table, find, assign, erase, bytes_ord}
use reduct_cpp.Format.{Fmt}
use reduct_cpp.Json.{Json}
use reduct_cpp.Batch.{ReadableRecord, Batch, empty_batch, add_record, add_only_labels}
use reduct_cpp.BatchV1.{write}
use reduct_cpp.BatchV2.Process.{process_batch_v2_records, BatchRecordErrors}
use reduct_cpp.Serialisation.{exception_error}
use reduct_cpp.Bucket.{Client, Bucket}
use reduct_cpp.Bucket.Batches.{first_batch_record_error}

abbrev pub AttachmentMap : Type 0
AttachmentMap = Table Bytes Bytes

abbrev pub label_key : Bytes
label_key = codes "key"

abbrev pub label_remove : Bytes
label_remove = codes "remove"

abbrev pub meta_entry : Bytes → Bytes
meta_entry entry_name = entry_name ++ codes "/$meta"

-- The key of the filter: a `$` in front is doubled.
unfoldable pub escape_key : Bytes → Bytes
escape_key key = if starts_with (b'$' ∷ []) key then b'$' ∷ key else key

-- The callback of `RemoveAttachments`: the record's labels with the mark to remove.
unfoldable pub mark_removed : ReadableRecord → Batch → Batch
unfolding add_only_labels
mark_removed r batch =
    add_only_labels r.entry r.timestamp (assign label_remove (codes "true") r.labels) batch

-- The answer of a batch of attachments.
unfoldable pub first_error : {W : Type 0} → Except (Result BatchRecordErrors) × W → Except Error × W
unfolding first_batch_record_error
first_error (thrown, w) = (thrown, w)
first_error (ok r, w) =
    (ok (if is_error r.error then r.error else first_batch_record_error r.result), w)

-- The test for the label `remove`.
unfoldable pub removes : ReadableRecord → Bool
unfolding find
removes r = elim (find label_remove r.labels) [ none ↦ false | some v ↦ v =? codes "true" ]

-- The variables that the callback of `ReadAttachments` captures.
pub record Reading : Type 0 where
  pub attachments : AttachmentMap
  pub callback_err : Error

module _ (json : Json) where
  -- The loop of `WriteAttachments` that fills the batch; none where a payload is no JSON.
  unfoldable pub attachment_batch : Bytes → ℕ → AttachmentMap → Batch → Option Batch
  unfolding add_record
  attachment_batch entry timestamp [] batch = some batch
  attachment_batch entry timestamp ((key, payload) ∷ rest) batch =
      let filled = attachment_batch entry (timestamp + 1000) rest (
        add_record entry timestamp (some payload) (codes "application/json") ((label_key, key) ∷ [])
          batch) in
      elim (json.parse payload) [ thrown ↦ none | ok _ ↦ filled ]

  -- A payload that was read, under its key.
  unfoldable pub keep_payload : Bytes → Bytes → Reading → Bool × Reading
  keep_payload key payload st = elim (json.parse payload) [
    | thrown ↦ (false, record st { callback_err = exception_error })
    | ok _ ↦ (true, record st { attachments = assign key payload st.attachments })
  ]

  -- The callback of `ReadAttachments`; `payload` is what `ReadAll` of the record gives.
  unfoldable pub keep_attachment : ReadableRecord → Result Bytes → Reading → Bool × Reading
  unfolding keep_payload removes find
  keep_attachment r payload st = elim (find label_key r.labels) [
    | none ↦ (true, st)
    | some key ↦
        if is_error payload.error
        then (false, record st { callback_err = payload.error })
        else if removes r
        then (true, record st { attachments = erase key st.attachments })
        else keep_payload key payload.result st
  ]

  -- `WriteAttachments`, at the time `now`.
  unfoldable pub write_attachments :
      {W : Type 0} → Fmt → Client W → Bucket → ℕ → Bytes → AttachmentMap → W → Except Error × W
  unfolding attachment_batch first_error
  write_attachments fmt client bucket now entry_name attachments w =
      if length attachments == 0
      then (ok no_error, w)
      else (elim (attachment_batch (meta_entry entry_name) (now / 1000 * 1000) attachments
          empty_batch) [
            | none ↦ (ok exception_error, w)
            | some batch ↦
                first_error (process_batch_v2_records fmt client.send bucket.io_path batch write w)
          ])
