-- ===== src/Bucket/AttachmentTrip.antt =====
-- Attachments that were written, as they are read back.
use reduct_cpp.Common.{
  ℕ, ◌+◌, ◌≡◌, refl, sym, ap, ◌∙◌, true, false, Option, none, some, List, [], ◌∷◌, ◌++◌,
  append_assoc, append-nil, Bytes, codes, length, get_elem?, get_elem?-append_left, All, no_error,
}
use reduct_cpp.Common.Table.{IsOrdered, find, assign, assign_last, All-heads, All-tails, bytes_ord}
use reduct_cpp.Json.{Json}
use reduct_cpp.Serialisation.{success}
use reduct_cpp.Batch.{Record, ReadableRecord, Batch, empty_batch, data_or_empty, add_record}
use reduct_cpp.Batch.Valid.{
  Holds, HoldsRecord, IsValid, empty_batch-IsValid, add_record-IsValid, get_elem?_last,
}
use reduct_cpp.Bucket.Attachments.{
  AttachmentMap, Reading, label_key, attachment_batch, keep_attachment, keep_payload, removes,
}
use reduct_cpp.Bucket.MetaReads.{nothing_read}
use reduct_cpp.Bucket.Meta.{keep_all, IsJson}

-- The data of a record of a batch.
abbrev data_of : List Bytes → Option ℕ → Bytes
data_of body none = []
data_of body (some i) = data_or_empty (get_elem? body i)

-- A record of a batch as it is read where it is stored.
abbrev stored_record : Record → ReadableRecord
stored_record r = record {
  entry = r.entry;
  timestamp = r.timestamp;
  size = r.size;
  last = false;
  labels = r.labels;
  content_type = r.content_type;
}

-- The records of a batch with their data, as they are read.
unfoldable pub handed_out : List Bytes → List Record → List (ReadableRecord × Bytes)
handed_out body [] = []
handed_out body (r ∷ rs) = (stored_record r, data_of body r.data_index) ∷ handed_out body rs

abbrev pub read_batch : Batch → List (ReadableRecord × Bytes)
read_batch b = handed_out b.body b.records

data_of-append :
    (body : List Bytes) (d : Bytes) (index : Option ℕ) (size : ℕ)
    → Holds body index size
    → data_of (body ++ d ∷ []) index ≡ data_of body index
data_of-append body d none size h = refl
data_of-append body d (some i) size (bytes, found, e) =
    ap data_or_empty (get_elem?-append_left body (d ∷ []) i found ∙ sym found)

handed_out-body :
    (body : List Bytes) (d : Bytes) (rs : List Record)
    → All (HoldsRecord body) rs
    → handed_out (body ++ d ∷ []) rs ≡ handed_out body rs
unfolding handed_out
handed_out-body body d [] h = refl
handed_out-body body d (r ∷ rs) (p, h) =
    rw (data_of-append body d r.data_index r.size p, handed_out-body body d rs h) refl

handed_out-append :
    (body : List Bytes) (rs : List Record) (r : Record)
    → handed_out body (rs ++ r ∷ [])
      ≡ handed_out body rs ++ (stored_record r, data_of body r.data_index) ∷ []
unfolding handed_out
handed_out-append body [] r = refl
handed_out-append body (s ∷ rs) r =
    ap (◌∷◌ (stored_record s, data_of body s.data_index)) (handed_out-append body rs r)

module _ (json : Json) where
  keep_all-append :
      (xs : List (ReadableRecord × Bytes)) (r : ReadableRecord) (payload : Bytes) (st : Reading)
      → keep_all json (xs ++ (r, payload) ∷ []) st
        ≡ (keep_attachment json r (success payload) (keep_all json xs st)).1
  unfolding keep_all
  keep_all-append [] r payload st = refl
  keep_all-append ((s, p) ∷ xs) r payload st =
      keep_all-append xs r payload (keep_attachment json s (success p) st).1

  -- An attachment as it is read.
  abbrev read_one : Bytes → ℕ → Bytes → Bytes → ReadableRecord
  read_one entry timestamp key payload = record {
    entry = entry;
    timestamp = timestamp;
    size = length payload;
    last = false;
    labels = (label_key, key) ∷ [];
    content_type = codes "application/json";
  }

  abbrev with_attachment : Bytes → ℕ → Bytes → Bytes → Batch → Batch
  with_attachment entry timestamp key payload b =
      add_record entry timestamp (some payload) (codes "application/json") ((label_key, key) ∷ []) b

  read_batch_add :
      (entry : Bytes) (timestamp : ℕ) (key payload : Bytes) (b : Batch)
      → IsValid b
      → read_batch (with_attachment entry timestamp key payload b)
        ≡ read_batch b ++ (read_one entry timestamp key payload, payload) ∷ []
  unfolding add_record
  read_batch_add entry timestamp key payload b v =
      handed_out-append (b.body ++ payload ∷ []) b.records _
      ∙ rw (handed_out-body b.body payload b.records v.held, get_elem?_last b.body payload) refl

  abbrev reading : AttachmentMap → Reading
  reading attachments = record { attachments = attachments; callback_err = no_error }

  keep_attachment_one :
      (entry : Bytes) (timestamp : ℕ) (key payload : Bytes) (base : AttachmentMap)
      → IsJson json payload
      → (keep_attachment json
          (read_one entry timestamp key payload)
          (success payload)
          (reading base)).1
        ≡ reading (assign key payload base)
  unfolding keep_attachment keep_payload removes find
  keep_attachment_one entry timestamp key payload base (v, parsed) = rw (parsed, keep_payload) refl

  keep_all_add :
      (entry : Bytes) (timestamp : ℕ) (key payload : Bytes) (b : Batch) (base : AttachmentMap)
      → IsValid b
      → IsJson json payload
      → keep_all json (read_batch b) nothing_read ≡ reading base
      → keep_all json (read_batch (with_attachment entry timestamp key payload b)) nothing_read
        ≡ reading (assign key payload base)
  keep_all_add entry timestamp key payload b base v parsed h =
      ap (λ rs. keep_all json rs nothing_read) (read_batch_add entry timestamp key payload b v)
      ∙ keep_all-append (read_batch b) (read_one entry timestamp key payload) payload nothing_read
      ∙ ap
          (λ st.
            (keep_attachment json (read_one entry timestamp key payload) (success payload) st).1)
          h
      ∙ keep_attachment_one entry timestamp key payload base parsed

  -- A batch that is filled, and what is kept of it when it is read.
  abbrev Filled : Option Batch → AttachmentMap → Type 0
  Filled filled attachments =
      (b : Batch) × (filled ≡ some b)
      × (keep_all json (read_batch b) nothing_read ≡ reading attachments)

  attachment_batch_step :
      (entry : Bytes) (timestamp : ℕ) (key payload : Bytes) (rest : AttachmentMap) (b : Batch)
      → IsJson json payload
      → attachment_batch json entry timestamp ((key, payload) ∷ rest) b
        ≡ attachment_batch json entry
            (timestamp + 1000)
            rest
            (with_attachment entry timestamp key payload b)
  unfolding attachment_batch
  attachment_batch_step entry timestamp key payload rest b (v, parsed) =
      rw (parsed, attachment_batch) refl

  fill :
      (entry : Bytes) (timestamp : ℕ) (attachments base : AttachmentMap) (b : Batch)
      → IsOrdered attachments
      → All (λ a. IsJson json a.1) attachments
      → All (λ e. All (λ a. bytes_ord.lt e.0 a.0 ≡ true) attachments) base
      → IsValid b
      → keep_all json (read_batch b) nothing_read ≡ reading base
      → Filled (attachment_batch json entry timestamp attachments b) (base ++ attachments)
  unfolding attachment_batch
  fill entry timestamp [] base b ordered h above v kept =
      (b, refl, kept ∙ ap reading (sym (append-nil base)))
  fill entry timestamp ((key, payload) ∷ rest) base b (first, ordered) (parsed, h) above v kept =
      let more = (key, payload) ∷ [] in
      let filled =
        fill entry (timestamp + 1000) rest (base ++ more)
          (with_attachment entry timestamp key payload b) ordered h
          (All-tails (key, payload) rest base above first)
          (add_record-IsValid entry timestamp (some payload) (codes "application/json")
            ((label_key, key) ∷ []) b v)
          (keep_all_add entry timestamp key payload b base v parsed kept
            ∙ ap reading (assign_last key payload base (All-heads key payload rest base above))) in
      (
        filled.0,
        attachment_batch_step entry timestamp key payload rest b parsed ∙ filled.1,
        filled.2 ∙ ap reading (append_assoc base more rest),
      )

  -- Attachments in the order of their keys, whose payloads are JSON texts, fill a batch, and
  -- reading the records of this batch one after the other, each with its own data, keeps the same
  -- attachments and finds no error.
  pub keep_all-attachment_batch :
      (entry : Bytes) (timestamp : ℕ) (attachments : AttachmentMap)
      → IsOrdered attachments
      → All (λ a. IsJson json a.1) attachments
      → (b : Batch) × (attachment_batch json entry timestamp attachments empty_batch ≡ some b)
        × (keep_all json (read_batch b) nothing_read
            ≡ record { attachments = attachments; callback_err = no_error })
  unfolding keep_all handed_out
  keep_all-attachment_batch entry timestamp attachments ordered h =
      fill entry timestamp attachments [] empty_batch ordered h tt empty_batch-IsValid refl
