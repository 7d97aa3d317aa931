-- ===== src/Bucket/Links.antt =====
-- Query links (`CreateQueryLink`, `NormalizeAndValidateQueryLinkOptions`, `EnsureApiVersion`,
-- `HasWildcard`).
use mathlib.Core.Option
use reduct_cpp.Common.{
  ℕ, Bool, true, false, ◌||◌, ◌&&◌, not, Option, none, some, List, [], ◌∷◌, ◌++◌, Bytes, codes,
  length, ◌==◌, if◌then◌else◌, Except, ok, thrown, ◌>>=◌, neg, Error, is_error, Result,
}
use reduct_cpp.Format.{Fmt}
use reduct_cpp.Json.{Json}
use reduct_cpp.HttpClient.{is_compatible}
use reduct_cpp.BatchV1.{contains, to_microseconds}
use reduct_cpp.Serialisation.{
  QueryLinkOptions, query_link_options_to_json_string, exception_error, failed_with, success,
}
use reduct_cpp.Bucket.{Client, Bucket, supports_batch_protocol_v2}
use reduct_cpp.Bucket.Query.{v2_not_supported, entry_name_required}

-- `HasWildcard`
unfoldable pub has_wildcard : Bytes → Bool
has_wildcard entry = contains b'*' entry || contains b'?' entry || contains b'[' entry

abbrev pub is_some : {A : Type 0} → Option A → Bool
is_some none = false
is_some (some a) = true

abbrev pub entry_missing : Error
entry_missing = record {
  code = neg 1;
  message = codes "record_entry must be provided with record_timestamp";
}

abbrev pub timestamp_missing : Error
timestamp_missing = record {
  code = neg 1;
  message = codes "record_timestamp must be provided with record_entry";
}

abbrev pub selector_missing : Error
selector_missing = record {
  code = neg 1;
  message =
      codes
        "record entry and timestamp must be provided for ReductStore API v1.19+; use record_entry and record_timestamp";
}

abbrev pub version_unknown : Error
version_unknown = record {
  code = neg 1;
  message = codes "Failed to determine ReductStore API version";
}

abbrev pub no_options : QueryLinkOptions
no_options = record {
  start = none;
  stop = none;
  query_options = record {
    when = none;
    strict = none;
    ext = none;
    ttl = none;
    continuous = false;
    head_only = false;
  };
  record_index = 0;
  record_entry = none;
  record_timestamp = none;
  expire_at = none;
  file_name = none;
  base_url = none;
}

-- The entry that a record's time is looked up in: the one given, or the only entry of the query.
unfoldable pub selector_entry : List Bytes → QueryLinkOptions → Option Bytes
unfolding has_wildcard
selector_entry (entry ∷ []) options =
    if is_some options.record_timestamp
      && not (is_some options.record_entry)
      && not (has_wildcard entry)
    then some entry
    else options.record_entry
selector_entry _ options = options.record_entry

-- By whether the API is new.
unfoldable pub require_selector : QueryLinkOptions → Except Bool → Except (Result QueryLinkOptions)
require_selector options thrown = thrown
require_selector options (ok compatible) = ok (
    if compatible && not (is_some options.record_entry)
    then failed_with no_options selector_missing
    else success options)

module _ {W : Type 0} (client : Client W) where
  -- `EnsureApiVersion`
  unfoldable pub ensure_api_version : W → Result Bytes × W
  ensure_api_version w = elim (client.api_version w) [
    | some version ↦ (success version, w)
    | none ↦
        let got = client.get (codes "/info") w in
        if is_error got.0.error
        then (failed_with [] got.0.error, got.1)
        else (elim (client.api_version got.1) [
          | none ↦ (failed_with [] version_unknown, got.1)
          | some version ↦ (success version, got.1)
        ])
  ]

  -- The test for the API version; it throws where the version has no number.
  unfoldable pub check_selector : Result Bytes → QueryLinkOptions → Except (Result QueryLinkOptions)
  unfolding require_selector is_compatible
  check_selector api options =
      if is_error api.error
      then ok (failed_with no_options api.error)
      else require_selector options (is_compatible (codes "1.19") api.result)

  -- `NormalizeAndValidateQueryLinkOptions`
  unfoldable pub normalize_and_validate_query_link_options :
      List Bytes → QueryLinkOptions → W → Except (Result QueryLinkOptions) × W
  unfolding selector_entry ensure_api_version check_selector
  normalize_and_validate_query_link_options entries given w =
      let options : QueryLinkOptions = record given {
        record_entry = selector_entry entries given;
      } in
      let api = ensure_api_version w in
      if is_some options.record_timestamp && not (is_some options.record_entry)
      then (ok (failed_with no_options entry_missing), w)
      else if is_some options.record_entry && not (is_some options.record_timestamp)
      then (ok (failed_with no_options timestamp_missing), w)
      else (check_selector api.0 options, api.1)

module _ {W : Type 0} (fmt : Fmt) (json : Json) (client : Client W) (bucket : Bucket) where
  -- `data.at("link")` of the answer.
  unfoldable pub link_of : Bytes → Except Bytes
  link_of body = json.parse body >>= λ answer. elim (json.at (codes "link") answer) [
    | none ↦ thrown
    | some v ↦ json.as_text v
  ]

  -- Posting the document of a link. The file's name is made of `stem` where none is given; an
  -- index of 2 ^ 63 or more, which would be printed as a negative number, is not modelled.
  unfoldable pub post_link :
      ℕ → Bytes → List Bytes → QueryLinkOptions → W → Except (Result Bytes) × W
  unfolding link_of
  post_link now stem entries options w =
      let selector = elim options.record_timestamp as (λ _. ℕ) [
        | none ↦ options.record_index
        | some ts ↦ to_microseconds ts
      ] in
      let file_name =
        Option.get_or options.file_name (stem ++ b'_' ∷ (fmt.uint selector ++ codes ".bin")) in
      elim (query_link_options_to_json_string json now bucket.name entries options) [
        | thrown ↦ (thrown, w)
        | ok document ↦
            if is_error document.error
            then (ok (failed_with [] document.error), w)
            else (elim (json.dump document.result) [
              | thrown ↦ (thrown, w)
              | ok body ↦
                  let posted = client.post_with_response (codes "/links/" ++ file_name) body w in
                  if is_error posted.0.error
                  then (ok (failed_with [] posted.0.error), posted.1)
                  else (elim (link_of posted.0.result) [
                    | thrown ↦ (ok (failed_with [] exception_error), posted.1)
                    | ok link ↦ (ok (success link), posted.1)
                  ])
            ])
      ]

  unfoldable pub create_query_link_for :
      ℕ → Bytes → List Bytes → QueryLinkOptions → W → Except (Result Bytes) × W
  unfolding normalize_and_validate_query_link_options post_link
  create_query_link_for now stem entries options w =
      let normalized = normalize_and_validate_query_link_options client entries options w in
      elim normalized.0 [
        | thrown ↦ (thrown, normalized.1)
        | ok n ↦
            if is_error n.error
            then (ok (failed_with [] n.error), normalized.1)
            else post_link now stem entries n.result normalized.1
      ]

  -- `CreateQueryLink` of one entry
  unfoldable pub create_query_link : ℕ → Bytes → QueryLinkOptions → W → Except (Result Bytes) × W
  unfolding create_query_link_for
  create_query_link now entry_name options w =
      create_query_link_for now entry_name (entry_name ∷ []) options w

  -- `CreateQueryLink` of several entries
  unfoldable pub create_query_link_entries :
      ℕ → List Bytes → QueryLinkOptions → W → Except (Result Bytes) × W
  unfolding create_query_link_for supports_batch_protocol_v2
  create_query_link_entries now entries options w = elim (supports_batch_protocol_v2 client w) [
    | thrown ↦ (thrown, w)
    | ok false ↦ (ok (failed_with [] v2_not_supported), w)
    | ok true ↦
        if length entries == 0
        then (ok (failed_with [] entry_name_required), w)
        else create_query_link_for now bucket.name entries options w
  ]
