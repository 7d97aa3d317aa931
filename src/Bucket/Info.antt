-- ===== src/Bucket/Info.antt =====
-- What a bucket tells of itself (`GetSettings`, `UpdateSettings`, `GetInfo` and `GetEntryList` of
-- `Bucket`). A time is a number of nanoseconds.
use reduct_cpp.Common.{
  ℕ, Bool, false, Option, none, some, List, [], ◌∷◌, Bytes, codes, if◌then◌else◌, Except, ok,
  thrown, ◌>>=◌, Error, is_error, Result,
}
use reduct_cpp.Common.Numbers.{ns_of}
use reduct_cpp.Json.{Json}
use reduct_cpp.Serialisation.{
  Settings, Status, parse_status, no_settings, parse_bucket_settings, bucket_setting_to_json_string,
  failed_with, success, exception_error,
}
use reduct_cpp.Serialisation.Fields.{for_each, need, text_at, count_at, value_or}
use reduct_cpp.Bucket.{Client, Bucket}

-- `IBucket::BucketInfo`
pub record BucketInfo : Type 0 where
  pub name : Bytes
  pub entry_count : ℕ
  pub size : ℕ
  pub oldest_record : ℕ
  pub latest_record : ℕ
  pub is_provisioned : Bool
  pub status : Status

-- `IBucket::EntryInfo`
pub record EntryInfo : Type 0 where
  pub name : Bytes
  pub record_count : ℕ
  pub block_count : ℕ
  pub size : ℕ
  pub oldest_record : ℕ
  pub latest_record : ℕ
  pub status : Status

module _ (json : Json) where
  -- `Time() + std::chrono::microseconds(json.at(key))`
  unfoldable pub micros_at : Bytes → json.J → Except ℕ
  unfolding count_at
  micros_at key doc = count_at json key doc >>= λ n. ok (ns_of n)

  unfoldable pub bucket_info : json.J → Except BucketInfo
  unfolding text_at count_at micros_at value_or parse_status
  bucket_info doc = do
    name ← text_at json (codes "name") doc
    entry_count ← count_at json (codes "entry_count") doc
    size ← count_at json (codes "size") doc
    oldest_record ← micros_at (codes "oldest_record") doc
    latest_record ← micros_at (codes "latest_record") doc
    is_provisioned ← value_or json json.as_boolean false (codes "is_provisioned") doc
    status ← parse_status json doc
    ok (record {
      name = name;
      entry_count = entry_count;
      size = size;
      oldest_record = oldest_record;
      latest_record = latest_record;
      is_provisioned = is_provisioned;
      status = status;
    })

  unfoldable pub entry_info : json.J → Except EntryInfo
  unfolding text_at count_at micros_at parse_status
  entry_info doc = do
    name ← text_at json (codes "name") doc
    record_count ← count_at json (codes "record_count") doc
    block_count ← count_at json (codes "block_count") doc
    size ← count_at json (codes "size") doc
    oldest_record ← micros_at (codes "oldest_record") doc
    latest_record ← micros_at (codes "latest_record") doc
    status ← parse_status json doc
    ok (record {
      name = name;
      record_count = record_count;
      block_count = block_count;
      size = size;
      oldest_record = oldest_record;
      latest_record = latest_record;
      status = status;
    })

  -- The values that `json_entries[i]` gives for the indices below the size; only an array has
  -- indices.
  unfoldable pub indexed : json.J → Except (List json.J)
  indexed v = elim (json.elements v) [ [] ↦ ok [] | _ ∷ _ ↦ json.as_items v ]

  -- An answer that is parsed, with the value that comes with an error.
  unfoldable pub read_answer :
      {A : Type 0} → A → (json.J → Except (Result A)) → Result Bytes → Result A
  read_answer empty parse got =
      if is_error got.error
      then failed_with empty got.error
      else (elim (json.parse got.result >>= parse) [
        | thrown ↦ failed_with empty exception_error
        | ok r ↦ r
      ])

  -- Where the parsed value is the result.
  abbrev pub succeeding : {A : Type 0} → (json.J → Except A) → json.J → Except (Result A)
  succeeding parse doc = parse doc >>= λ a. ok (success a)

  unfoldable pub settings_of : json.J → Except (Result Settings)
  unfolding need parse_bucket_settings
  settings_of doc = need json (codes "settings") doc >>= λ v. ok (parse_bucket_settings json v)

  unfoldable pub info_of : json.J → Except BucketInfo
  unfolding need bucket_info
  info_of doc = need json (codes "info") doc >>= bucket_info

  unfoldable pub entries_of : json.J → Except (List EntryInfo)
  unfolding need indexed for_each entry_info
  entries_of doc = need json (codes "entries") doc >>= indexed >>= for_each entry_info

module _ {W : Type 0} (json : Json) (client : Client W) where
  -- `Get` of a path, and what its body tells.
  unfoldable pub get_parsed :
      {A : Type 0} → Bytes → A → (json.J → Except (Result A)) → W → Result A × W
  unfolding read_answer
  get_parsed path empty parse w =
      let got = client.get path w in (read_answer json empty parse got.0, got.1)

module _ {W : Type 0} (json : Json) (client : Client W) (bucket : Bucket) where
  -- `GetSettings`
  unfoldable pub get_settings : W → Result Settings × W
  unfolding get_parsed settings_of
  get_settings w = get_parsed json client bucket.path (no_settings json) (settings_of json) w

  -- `UpdateSettings`
  unfoldable pub update_settings : Settings → W → Except Error × W
  unfolding bucket_setting_to_json_string
  update_settings settings w = elim (json.dump (bucket_setting_to_json_string json settings)) [
    | thrown ↦ (thrown, w)
    | ok body ↦ let answered = client.put bucket.path body w in (ok answered.0, answered.1)
  ]

  -- `GetInfo`; none stands for the empty value that comes with an error.
  unfoldable pub get_info : W → Result (Option BucketInfo) × W
  unfolding get_parsed info_of
  get_info w =
      get_parsed json client bucket.path none
        (succeeding json (λ doc. info_of json doc >>= λ i. ok (some i))) w

  -- `GetEntryList`
  unfoldable pub get_entry_list : W → Result (List EntryInfo) × W
  unfolding get_parsed entries_of
  get_entry_list w = get_parsed json client bucket.path [] (succeeding json (entries_of json)) w
