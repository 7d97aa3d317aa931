-- ===== src/Bucket/Marks.antt =====
-- Records that `RemoveAttachments` has marked, as `ReadAttachments` reads them.
use reduct_cpp.Common.{
  ◌≡◌, refl, ap, ◌∙◌, true, none, some, [], ◌∷◌, ◌++◌, Bytes, codes, ◌=?◌, if◌then◌else◌,
}
use reduct_cpp.Common.Table.{find, assign, erase, find-assign, find-erase, bytes_ord}
use reduct_cpp.Json.{Json}
use reduct_cpp.Serialisation.{success}
use reduct_cpp.Batch.{LabelMap, Record, ReadableRecord, Batch, add_only_labels}
use reduct_cpp.Bucket.Attachments.{
  Reading, label_key, label_remove, mark_removed, removes, keep_attachment,
}
use reduct_cpp.Bucket.Meta.{same_text}

-- The labels of a record with the mark.
abbrev pub marked_labels : LabelMap → LabelMap
marked_labels labels = assign label_remove (codes "true") labels

-- The update of a record's labels.
abbrev pub label_update : ReadableRecord → Record
label_update r = record {
  entry = r.entry;
  timestamp = r.timestamp;
  size = 0;
  content_type = [];
  labels = marked_labels r.labels;
  data_index = none;
}

-- The record as it is read once it is updated.
abbrev pub updated : ReadableRecord → ReadableRecord
updated r = record r { labels = marked_labels r.labels }

updated-removes : (r : ReadableRecord) → removes (updated r) ≡ true
unfolding removes
updated-removes r = rw (find-assign label_remove label_remove (codes "true") r.labels, removes) refl

updated_key :
    (r : ReadableRecord) → find label_key (marked_labels r.labels) ≡ find label_key r.labels
updated_key r = find-assign label_remove label_key (codes "true") r.labels

module _ (json : Json) where
  keep_updated :
      (r : ReadableRecord) (key payload : Bytes) (st : Reading)
      → find label_key r.labels ≡ some key
      → (keep_attachment json (updated r) (success payload) st).1.attachments
        ≡ erase key st.attachments
  unfolding keep_attachment
  keep_updated r key payload st there =
      rw (updated_key r, keep_attachment, there, updated-removes r) refl

  -- For a record with the key `key`: the batch gets an update of its entry and time, whose labels
  -- are the record's with the mark, and once the record has these labels, reading it takes the
  -- attachment `key` out of what is kept and leaves all others.
  pub mark_removed-keep_attachment :
      (r : ReadableRecord) (batch : Batch) (key k payload : Bytes) (st : Reading)
      → find label_key r.labels ≡ some key
      → ((mark_removed r batch).records ≡ batch.records ++ label_update r ∷ [])
        × (find k (keep_attachment json (updated r) (success payload) st).1.attachments
            ≡ (if key =? k then none else find k st.attachments))
  unfolding mark_removed add_only_labels
  mark_removed-keep_attachment r batch key k payload st there = (
    refl,
    ap (find k) (keep_updated r key payload st there)
        ∙ find-erase key k st.attachments
        ∙ ap (λ t. if t then none else find k st.attachments) (same_text key k),
  )
