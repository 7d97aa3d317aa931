-- ===== src/Bucket/MetaReads.antt =====
-- Reading and removing attachments over a query (`ReadAttachments` and `RemoveAttachments` of
-- `Bucket`).
use reduct_cpp.Common.{
  ℕ, true, Option, none, some, List, [], ◌∷◌, map, Bytes, codes, if◌then◌else◌, Except, ok, thrown,
  Run, done, raised, undefined, Error, no_error, is_error, Result,
}
use reduct_cpp.Common.Table.{find, bytes_ord}
use reduct_cpp.Format.{Fmt}
use reduct_cpp.Json.{Json}
use reduct_cpp.Batch.{ReadableRecord, Batch, empty_batch}
use reduct_cpp.BatchV1.{update}
use reduct_cpp.BatchV2.Process.{process_batch_v2_records}
use reduct_cpp.Serialisation.{QueryOptions, failed_with, success}
use reduct_cpp.Bucket.{Client, Bucket, ReadRecordCallback}
use reduct_cpp.Bucket.ReadRecord.{Event, run_next, arrives, Caller, worker, other}
use reduct_cpp.Bucket.Query.{query_v2}
use reduct_cpp.Bucket.Links.{no_options}
use reduct_cpp.Bucket.Attachments.{
  AttachmentMap, Reading, label_key, meta_entry, escape_key, mark_removed, keep_attachment,
  first_error,
}

-- The client over a world with variables that a callback captures; the client leaves them alone.
abbrev pub with_locals : {S W : Type 0} → Client W → Client (S × W)
with_locals client = record {
  api_version = λ w. client.api_version w.1;
  get = λ path w. let r = client.get path w.1 in (r.0, (w.0, r.1));
  head = λ path w. let r = client.head path w.1 in (r.0, (w.0, r.1));
  post = λ path body w. let r = client.post path body w.1 in (r.0, (w.0, r.1));
  post_with_response =
      λ path body w. let r = client.post_with_response path body w.1 in (r.0, (w.0, r.1));
  put = λ path body w. let r = client.put path body w.1 in (r.0, (w.0, r.1));
  fetch = λ head path headers w. let r = client.fetch head path headers w.1 in (r.0, (w.0, r.1));
  send = λ request w. let r = client.send request w.1 in (r.0, (w.0, r.1));
}

abbrev pub event_with_locals : {S W : Type 0} → Event W → Event (S × W)
event_with_locals run_next = run_next
event_with_locals (arrives f) = arrives (λ w. (w.0, f w.1))

abbrev pub caller_with_locals : {S W : Type 0} → Caller W → Caller (S × W)
caller_with_locals worker = worker
caller_with_locals (other meanwhile) = other (λ w. map event_with_locals (meanwhile w.1))

-- The variables at the start of `ReadAttachments`.
abbrev pub nothing_read : Reading
nothing_read = record { attachments = []; callback_err = no_error }

-- The options of a query that nothing is set in.
abbrev pub default_options : QueryOptions
default_options = no_options.query_options

-- What `ReadAttachments` answers once the query is over.
abbrev pub attachments_read : Error → Reading → Result AttachmentMap
attachments_read err st =
    if is_error err
    then failed_with [] err
    else if is_error st.callback_err
    then failed_with [] st.callback_err
    else success st.attachments

abbrev pub after_reading :
    {W : Type 0} → Option (Run (Error × (Reading × W))) → Option (Run (Result AttachmentMap × W))
after_reading none = none
after_reading (some raised) = some raised
after_reading (some undefined) = some undefined
after_reading (some (done (err, (st, w)))) = some (done (attachments_read err st, w))

module _ {W : Type 0} (json : Json) (read_all : ReadableRecord → W → Result Bytes × W) where
  -- The callback of `ReadAttachments`, where `read_all` reads the data of a record.
  unfoldable pub read_attachment : ReadRecordCallback (Reading × W)
  unfolding keep_attachment find
  read_attachment r (st, w) =
      let got = read_all r w in
      let kept = keep_attachment json r got.0 st in
      elim (find label_key r.labels) [ none ↦ (true, (st, w)) | some _ ↦ (kept.0, (kept.1, got.1)) ]

-- The callback of `RemoveAttachments`.
unfoldable pub mark_attachment : {W : Type 0} → ReadRecordCallback (Batch × W)
unfolding mark_removed
mark_attachment r (batch, w) = (true, (mark_removed r batch, w))

-- The filter of `RemoveAttachments`: the label `key`, as a text, is one of the keys.
unfoldable pub keys_filter : (json : Json) → List Bytes → json.J
unfolding escape_key
keys_filter json keys =
    let cast =
      json.set (codes "&key") (json.set (codes "$cast") (json.text (codes "string")) json.null)
        json.null in
    json.set (codes "$in") (json.array (cast ∷ map (λ key. json.text (escape_key key)) keys))
      json.null

-- Its options: no filter for no keys.
unfoldable pub filter_options : Json → List Bytes → Except QueryOptions
unfolding keys_filter
filter_options json [] = ok default_options
filter_options json (key ∷ keys) = elim (json.dump (keys_filter json (key ∷ keys))) [
  | thrown ↦ thrown
  | ok text ↦ ok (record default_options { when = some text })
]

module _ {W : Type 0} (fmt : Fmt) (json : Json) (client : Client W) (bucket : Bucket) where
  module _ (caller : Caller W) (fuel : ℕ) where
    -- `ReadAttachments`
    unfoldable pub read_attachments :
        (ReadableRecord → W → Result Bytes × W)
        → Bytes
        → W
        → Option (Run (Result AttachmentMap × W))
    unfolding query_v2 read_attachment
    read_attachments read_all entry_name w = after_reading (
        query_v2 json (with_locals client) bucket (caller_with_locals caller)
          (read_attachment json read_all) fuel (meta_entry entry_name ∷ []) none none
          default_options (nothing_read, w))

    -- The batch of `RemoveAttachments`, which is sent where the query has no error.
    unfoldable pub after_marking : Option (Run (Error × (Batch × W))) → Option (Run (Error × W))
    unfolding first_error
    after_marking none = none
    after_marking (some raised) = some raised
    after_marking (some undefined) = some undefined
    after_marking (some (done (err, (batch, w)))) =
        let sent =
          first_error (process_batch_v2_records fmt client.send bucket.io_path batch update w) in
        if is_error err
        then some (done (err, w))
        else some (elim sent.0 [ thrown ↦ raised | ok answer ↦ done (answer, sent.1) ])

    -- `RemoveAttachments`, of all attachments where no keys are given.
    unfoldable pub remove_attachments : Bytes → List Bytes → W → Option (Run (Error × W))
    unfolding filter_options query_v2 mark_attachment after_marking
    remove_attachments entry_name keys w = elim (filter_options json keys) [
      | thrown ↦ some raised
      | ok options ↦ after_marking (
          query_v2 json (with_locals client) bucket (caller_with_locals caller) mark_attachment fuel
            (meta_entry entry_name ∷ []) none none options (empty_batch, w))
    ]
