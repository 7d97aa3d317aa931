-- ===== src/Clients.antt =====
-- The client of a server (src/reduct/client.cc): information on the server, and buckets. What a
-- `noexcept` function would throw is `thrown`: the program is terminated there.
pub mod Tokens
pub mod Policies
pub mod Requests
mod Tests
use mathlib.Core.Option
use reduct_cpp.Common.{
  ℕ, ◌*◌, ℤ, pos, Bool, Option, none, some, List, [], ◌∷◌, ◌++◌, Bytes, codes, ◌==ℤ◌, if◌then◌else◌,
  Except, ok, thrown, ◌>>=◌, Error, no_error, is_error, Result,
}
use reduct_cpp.Json.{Json}
use reduct_cpp.Time.{Clock}
use reduct_cpp.Serialisation.{
  Settings, parse_bucket_settings, bucket_setting_to_json_string, failed_with, success,
}
use reduct_cpp.Serialisation.Fields.{for_each, need, text_at, count_at, optional_at}
use reduct_cpp.Serialisation.Lifecycles.{as_time}
use reduct_cpp.Bucket.{Client, Bucket, new_bucket}
use reduct_cpp.Bucket.Info.{BucketInfo, bucket_info, micros_at, get_parsed, succeeding}

-- `IClient::ServerInfo::License`
pub record License : Type 0 where
  pub licensee : Bytes
  pub invoice : Bytes
  pub expiry_date : ℤ
  pub plan : Bytes
  pub device_number : ℕ
  pub disk_quota : ℕ
  pub fingerprint : Bytes

-- `IClient::ServerInfo`; `uptime` counts seconds, the other times nanoseconds.
pub record ServerInfo : Type 0 where
  pub version : Bytes
  pub bucket_count : ℕ
  pub usage : ℕ
  pub uptime : ℕ
  pub oldest_record : ℕ
  pub latest_record : ℕ
  pub license : Option License
  pub bucket_defaults : Settings

-- What `IBucket::Build` makes: the bucket, whose own HTTP client starts with an API version.
pub record BuiltBucket : Type 0 where
  pub bucket : Bucket
  pub api_version : Option Bytes

module _ (json : Json) (clock : Clock) where
  unfoldable pub license_of : json.J → Except License
  unfolding text_at count_at need as_time
  license_of doc = do
    licensee ← text_at json (codes "licensee") doc
    invoice ← text_at json (codes "invoice") doc
    plan ← text_at json (codes "plan") doc
    device_number ← count_at json (codes "device_number") doc
    disk_quota ← count_at json (codes "disk_quota") doc
    fingerprint ← text_at json (codes "fingerprint") doc
    expiry ← need json (codes "expiry_date") doc
    expiry_date ← as_time json clock expiry
    ok (record {
      licensee = licensee;
      invoice = invoice;
      expiry_date = expiry_date;
      plan = plan;
      device_number = device_number;
      disk_quota = disk_quota;
      fingerprint = fingerprint;
    })

  -- The fields of `ServerInfo`, with the settings that were parsed before.
  unfoldable pub server_info : Settings → json.J → Except ServerInfo
  unfolding text_at count_at micros_at optional_at license_of
  server_info bucket_defaults doc = do
    version ← text_at json (codes "version") doc
    bucket_count ← count_at json (codes "bucket_count") doc
    usage ← count_at json (codes "usage") doc
    uptime ← count_at json (codes "uptime") doc
    oldest_record ← micros_at json (codes "oldest_record") doc
    latest_record ← micros_at json (codes "latest_record") doc
    license ← optional_at json license_of (codes "license") doc
    ok (record {
      version = version;
      bucket_count = bucket_count;
      usage = usage;
      uptime = uptime;
      oldest_record = oldest_record;
      latest_record = latest_record;
      license = license;
      bucket_defaults = bucket_defaults;
    })

  -- The body of the `try` of `GetInfo`; none stands for the empty value that comes with an error.
  unfoldable pub info_answer : json.J → Except (Result (Option ServerInfo))
  unfolding need parse_bucket_settings server_info
  info_answer doc = do
    defaults ← need json (codes "defaults") doc
    bucket ← need json (codes "bucket") defaults
    let settings = parse_bucket_settings json bucket
    if is_error settings.error
        then ok (failed_with none settings.error)
        else (server_info settings.result doc >>= λ info. ok (success (some info)))

  -- The loop of `GetBucketList`.
  unfoldable pub bucket_list : json.J → Except (List BucketInfo)
  unfolding need for_each bucket_info
  bucket_list doc =
      need json (codes "buckets") doc >>= λ v. for_each (bucket_info json) (json.elements v)

abbrev pub bucket_path : Bytes → Bytes
bucket_path name = codes "/b/" ++ name

-- The message for a bucket that is not there.
abbrev pub not_found : Bytes → Error → Error
not_found name err =
    if err.code ==ℤ pos 404
    then record err { message = codes "Bucket '" ++ (name ++ codes "' is not found") }
    else err

module _ {W : Type 0} (json : Json) (clock : Clock) (client : Client W) where
  -- `GetInfo`
  unfoldable pub get_info : W → Result (Option ServerInfo) × W
  unfolding get_parsed info_answer
  get_info w = get_parsed json client (codes "/info") none (info_answer json clock) w

  -- `GetBucketList`
  unfoldable pub get_bucket_list : W → Result (List BucketInfo) × W
  unfolding get_parsed bucket_list
  get_bucket_list w =
      get_parsed json client (codes "/list") [] (succeeding json (bucket_list json clock)) w

module _ {W : Type 0} (json : Json) (client : Client W) where
  -- `IBucket::Build` with the version that the client knows.
  unfoldable pub build : Bytes → W → BuiltBucket
  unfolding new_bucket
  build name w = record { bucket = new_bucket name; api_version = client.api_version w }

  -- `GetBucket`
  unfoldable pub get_bucket : Bytes → W → Result (Option BuiltBucket) × W
  unfolding build
  get_bucket name w =
      let answered = client.head (bucket_path name) w in
      if is_error answered.0
      then (failed_with none (not_found name answered.0), answered.1)
      else (success (some (build name answered.1)), answered.1)

  -- The body of `CreateBucket`: `{}` for settings of which none is set.
  unfoldable pub settings_body : Settings → Except Bytes
  unfolding bucket_setting_to_json_string
  settings_body settings =
      if json.is_null (bucket_setting_to_json_string json settings)
      then ok (codes "{}")
      else json.dump (bucket_setting_to_json_string json settings)

  -- `CreateBucket`
  unfoldable pub create_bucket : Bytes → Settings → W → Except (Result (Option BuiltBucket)) × W
  unfolding settings_body build
  create_bucket name settings w = elim (settings_body settings) [
    | thrown ↦ (thrown, w)
    | ok body ↦
        let err = client.post (bucket_path name) body w in
        if is_error err.0
        then (ok (failed_with none err.0), err.1)
        else (ok (success (some (build name err.1))), err.1)
  ]

  -- `GetOrCreateBucket`
  unfoldable pub get_or_create_bucket :
      Bytes → Settings → W → Except (Result (Option BuiltBucket)) × W
  unfolding get_bucket create_bucket
  get_or_create_bucket name settings w =
      let ret = get_bucket name w in
      if ret.0.error.code ==ℤ pos 404 then create_bucket name settings ret.1 else (ok ret.0, ret.1)
