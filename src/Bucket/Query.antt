-- ===== src/Bucket/Query.antt =====
-- Queries and removing by query (`Query`, `QueryV1`, `QueryV2`, `RemoveQuery`, `RemoveQueryV1`,
-- `RemoveQueryV2`).
use reduct_cpp.Common.{
  ℕ, zero, suc, Bool, true, false, Option, none, some, List, [], ◌∷◌, ◌++◌, Bytes, codes, length,
  ◌==◌, ◌==ℤ◌, if◌then◌else◌, Except, ok, thrown, ◌>>=◌, Run, done, raised, undefined, then_run,
  run, pos, neg, Error, no_error, is_error, Result,
}
use reduct_cpp.Common.Numbers.{to_string}
use reduct_cpp.Json.{Json}
use reduct_cpp.Serialisation.{
  QueryOptions, query_options_to_json_string, exception_error, failed_with, success,
}
use reduct_cpp.Bucket.{Client, Bucket, ReadRecordCallback, supports_batch_protocol_v2}
use reduct_cpp.Bucket.ReadRecord.{Caller, batched, read_record, read_record_v2}

-- The loop of `QueryV1` and `QueryV2` over `round`, their call of `ReadRecord` or `ReadRecordV2`;
-- none where the fuel ends. The pause between two polls is not modelled.
unfoldable pub query_loop :
    {W : Type 0} → ℕ → (W → Run (Result Bool × W)) → Bool → W → Option (Run (Error × W))
query_loop zero round continuous w = none
query_loop (suc n) round continuous w = elim (round w) [
  | raised ↦ some raised
  | undefined ↦ some undefined
  | done (r, w') ↦
      let rest = query_loop n round continuous w' in
      if r.result
      then some (done (no_error, w'))
      else if is_error r.error
      then (if r.error.code ==ℤ pos 204
          then (if continuous then rest else some (done (no_error, w')))
          else some (done (r.error, w')))
      else rest
]

abbrev pub v2_not_supported : Error
v2_not_supported = record { code = neg 1; message = codes "Batch protocol v2 not supported" }

abbrev pub no_entry_names : Error
no_entry_names = record { code = neg 1; message = codes "No entry names provided" }

abbrev pub entry_name_required : Error
entry_name_required = record { code = neg 1; message = codes "At least one entry name is required" }

module _ {W : Type 0} (json : Json) (client : Client W) (bucket : Bucket) where
  -- `data[key]` of a number in a response.
  unfoldable pub response_number : Bytes → Bytes → Except ℕ
  response_number key body = json.parse body >>= λ doc. elim (json.at key doc) [
    | none ↦ thrown
    | some v ↦ json.as_number v
  ]

  -- Posting the document of a query: the answer's member `key`, or an error. `dump` stands outside
  -- the `try` of the code.
  unfoldable pub post_query :
      Bytes
      → Bytes
      → Bytes
      → List Bytes
      → Option ℕ
      → Option ℕ
      → QueryOptions
      → W
      → Run (Result ℕ × W)
  unfolding response_number query_options_to_json_string
  post_query path key type entries start stop options w =
      let query = query_options_to_json_string json type entries start stop options in
      if is_error query.error
      then done (failed_with 0 query.error, w)
      else then_run (run (json.dump query.result)) (λ body.
        let posted = client.post_with_response path body w in
        done (
          if is_error posted.0.error
          then (failed_with 0 posted.0.error, posted.1)
          else (elim (response_number key posted.0.result) [
            | thrown ↦ (failed_with 0 exception_error, posted.1)
            | ok id ↦ (success id, posted.1)
          ])))

  abbrev pub entry_path : Bytes → Bytes → Bytes
  entry_path entry_name rest = bucket.path ++ b'/' ∷ (entry_name ++ rest)

  module _ (caller : Caller W) (callback : ReadRecordCallback W) (fuel : ℕ) where
    -- The loop behind a query that was posted.
    unfoldable pub after_post :
        (ℕ → W → Run (Result Bool × W)) → Bool → Run (Result ℕ × W) → Option (Run (Error × W))
    unfolding query_loop
    after_post round continuous raised = some raised
    after_post round continuous undefined = some undefined
    after_post round continuous (done (posted, w)) =
        let read = query_loop fuel (round posted.result) continuous w in
        if is_error posted.error then some (done (posted.error, w)) else read

    -- `QueryV1`
    unfoldable pub query_v1 :
        Bytes → Option ℕ → Option ℕ → QueryOptions → W → Option (Run (Error × W))
    unfolding after_post post_query read_record
    query_v1 entry_name start stop options w =
        after_post
          (λ id.
            read_record client caller callback
              (entry_path entry_name (codes "/batch?q=" ++ to_string id)) batched options.head_only)
          options.continuous
          (post_query (entry_path entry_name (codes "/q")) (codes "id") (codes "QUERY") [] start
            stop options w)

    -- `QueryV2`
    unfoldable pub query_v2 :
        List Bytes → Option ℕ → Option ℕ → QueryOptions → W → Option (Run (Error × W))
    unfolding after_post post_query read_record_v2
    query_v2 entries start stop options w =
        after_post (λ id. read_record_v2 client caller callback bucket id options.head_only)
          options.continuous
          (post_query (bucket.io_path ++ codes "/q") (codes "id") (codes "QUERY") entries start stop
            options w)

    -- `Query` of one entry
    unfoldable pub query : Bytes → Option ℕ → Option ℕ → QueryOptions → W → Option (Run (Error × W))
    unfolding query_v1 query_v2 supports_batch_protocol_v2
    query entry_name start stop options w = elim (supports_batch_protocol_v2 client w) [
      | thrown ↦ some raised
      | ok true ↦ query_v2 (entry_name ∷ []) start stop options w
      | ok false ↦ query_v1 entry_name start stop options w
    ]

    -- `Query` of several entries
    unfoldable pub query_entries :
        List Bytes → Option ℕ → Option ℕ → QueryOptions → W → Option (Run (Error × W))
    unfolding query_v2 supports_batch_protocol_v2
    query_entries entry_names start stop options w = elim (supports_batch_protocol_v2 client w) [
      | thrown ↦ some raised
      | ok false ↦ some (done (v2_not_supported, w))
      | ok true ↦
          if length entry_names == 0
          then some (done (no_entry_names, w))
          else query_v2 entry_names start stop options w
    ]

  -- `RemoveQueryV1`
  unfoldable pub remove_query_v1 :
      Bytes → Option ℕ → Option ℕ → QueryOptions → W → Run (Result ℕ × W)
  unfolding post_query
  remove_query_v1 entry_name start stop options w =
      post_query (entry_path entry_name (codes "/q")) (codes "removed_records") (codes "REMOVE") []
        start stop options w

  -- `RemoveQueryV2`: the document is built before the entries are tested.
  unfoldable pub remove_query_v2 :
      List Bytes → Option ℕ → Option ℕ → QueryOptions → W → Run (Result ℕ × W)
  unfolding post_query query_options_to_json_string
  remove_query_v2 entries start stop options w =
      let query = query_options_to_json_string json (codes "REMOVE") entries start stop options in
      if length entries == 0
      then done
          (failed_with 0 (if is_error query.error then query.error else entry_name_required), w)
      else post_query (bucket.io_path ++ codes "/q") (codes "removed_records") (codes "REMOVE")
          entries start stop options w

  -- `RemoveQuery` of one entry
  unfoldable pub remove_query : Bytes → Option ℕ → Option ℕ → QueryOptions → W → Run (Result ℕ × W)
  unfolding remove_query_v1 remove_query_v2 supports_batch_protocol_v2
  remove_query entry_name start stop options w = elim (supports_batch_protocol_v2 client w) [
    | thrown ↦ raised
    | ok true ↦ remove_query_v2 (entry_name ∷ []) start stop options w
    | ok false ↦ remove_query_v1 entry_name start stop options w
  ]

  -- `RemoveQuery` of several entries
  unfoldable pub remove_query_entries :
      List Bytes → Option ℕ → Option ℕ → QueryOptions → W → Run (Result ℕ × W)
  unfolding remove_query_v2 supports_batch_protocol_v2
  remove_query_entries entry_names start stop options w =
      elim (supports_batch_protocol_v2 client w) [
        | thrown ↦ raised
        | ok false ↦ done (failed_with 0 v2_not_supported, w)
        | ok true ↦
            if length entry_names == 0
            then done (failed_with 0 no_entry_names, w)
            else remove_query_v2 entry_names start stop options w
      ]
