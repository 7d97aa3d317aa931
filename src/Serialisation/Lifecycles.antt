-- ===== src/Serialisation/Lifecycles.antt =====
-- The documents of lifecycle policies (src/reduct/internal/serialisation.cc).
use reduct_cpp.Common.{
  ℤ, Bool, Option, none, some, List, [], map, Bytes, codes, ◌=?◌, if◌then◌else◌, Except, ok, thrown,
  ◌>>=◌, Result,
}
use reduct_cpp.Json.{Json}
use reduct_cpp.Time.{Clock, parse_iso8601_utc}
use reduct_cpp.Serialisation.{set_some, set_parsed, failed_with, success, exception_error}
use reduct_cpp.Serialisation.Fields.{for_each, need, text_at, flag_at, texts_at, optional_at}

-- `IClient::LifecycleType`
pub data LifecycleType : Type 0 where
  delete compress : LifecycleType

-- `IClient::LifecycleMode`
pub data LifecycleMode : Type 0 where
  enabled disabled dry_run : LifecycleMode

-- `IClient::LifecycleInfo`
pub record LifecycleInfo : Type 0 where
  pub name : Bytes
  pub type : LifecycleType
  pub mode : LifecycleMode
  pub is_provisioned : Bool
  pub is_running : Bool
  pub last_run : Option ℤ

-- `IClient::LifecycleSettings`
pub record LifecycleSettings : Type 0 where
  pub type : LifecycleType
  pub bucket : Bytes
  pub entries : List Bytes
  pub older_than : Bytes
  pub interval : Option Bytes
  pub when : Option Bytes
  pub mode : LifecycleMode
  pub processing_interval : Option Bytes

-- `IClient::FullLifecycleInfo`
pub record FullLifecycleInfo : Type 0 where
  pub info : LifecycleInfo
  pub settings : LifecycleSettings

-- `LifecycleModeToString`
abbrev pub lifecycle_mode_to_string : LifecycleMode → Bytes
lifecycle_mode_to_string enabled = codes "enabled"
lifecycle_mode_to_string disabled = codes "disabled"
lifecycle_mode_to_string dry_run = codes "dry_run"

-- `LifecycleTypeToString`
abbrev pub lifecycle_type_to_string : LifecycleType → Bytes
lifecycle_type_to_string delete = codes "delete"
lifecycle_type_to_string compress = codes "compress"

abbrev pub mode_named : Bytes → Except LifecycleMode
mode_named mode =
    if mode =? codes "enabled"
    then ok enabled
    else if mode =? codes "disabled"
    then ok disabled
    else if mode =? codes "dry_run"
    then ok dry_run
    else thrown

abbrev pub type_named : Bytes → Except LifecycleType
type_named type =
    if type =? codes "delete"
    then ok delete
    else if type =? codes "compress"
    then ok compress
    else thrown

module _ (json : Json) where
  -- `ParseLifecycleMode`
  unfoldable pub parse_lifecycle_mode : json.J → Except LifecycleMode
  parse_lifecycle_mode mode_json =
      if json.is_null mode_json then ok enabled else (json.as_text mode_json >>= mode_named)

  -- `ParseLifecycleType`
  unfoldable pub parse_lifecycle_type : json.J → Except LifecycleType
  parse_lifecycle_type type_json =
      if json.is_null type_json then ok delete else (json.as_text type_json >>= type_named)

  unfoldable pub lifecycle_mode_at : json.J → Except LifecycleMode
  unfolding parse_lifecycle_mode
  lifecycle_mode_at doc = elim (json.at (codes "mode") doc) [
    | none ↦ ok enabled
    | some v ↦ parse_lifecycle_mode v
  ]

  unfoldable pub lifecycle_type_at : json.J → Except LifecycleType
  unfolding parse_lifecycle_type
  lifecycle_type_at doc = elim (json.at (codes "type") doc) [
    | none ↦ ok delete
    | some v ↦ parse_lifecycle_type v
  ]

  -- The members of `LifecycleSettingsToJsonString` in front of the condition.
  unfoldable pub lifecycle_members : LifecycleSettings → json.J
  unfolding set_some
  lifecycle_members s =
      let target = json.set (codes "older_than") (json.text s.older_than) (
        json.set (codes "entries") (json.array (map json.text s.entries)) (
          json.set (codes "bucket") (json.text s.bucket)
            (json.set (codes "type") (json.text (lifecycle_type_to_string s.type)) json.null))) in
      set_some json json.text (codes "processing_interval") s.processing_interval (
        json.set (codes "mode") (json.text (lifecycle_mode_to_string s.mode))
          (set_some json json.text (codes "interval") s.interval target))

  -- `LifecycleSettingsToJsonString`
  unfoldable pub lifecycle_settings_to_json_string : LifecycleSettings → Result json.J
  unfolding lifecycle_members set_parsed
  lifecycle_settings_to_json_string s =
      elim (set_parsed json (codes "when") s.when (lifecycle_members s)) [
        | thrown ↦ failed_with json.null exception_error
        | ok doc ↦ success doc
      ]

  -- The fields of `LifecycleSettings`.
  unfoldable pub lifecycle_settings : json.J → Except LifecycleSettings
  unfolding text_at texts_at lifecycle_mode_at lifecycle_type_at optional_at
  lifecycle_settings doc = do
    type ← lifecycle_type_at doc
    bucket ← text_at json (codes "bucket") doc
    entries ← texts_at json (codes "entries") doc
    older_than ← text_at json (codes "older_than") doc
    mode ← lifecycle_mode_at doc
    interval ← optional_at json json.as_text (codes "interval") doc
    when ← optional_at json json.dump (codes "when") doc
    processing_interval ← optional_at json json.as_text (codes "processing_interval") doc
    ok (record {
      type = type;
      bucket = bucket;
      entries = entries;
      older_than = older_than;
      interval = interval;
      when = when;
      mode = mode;
      processing_interval = processing_interval;
    })

module _ (json : Json) (clock : Clock) where
  -- `parse_iso8601_utc(json.get<std::string>())`
  unfoldable pub as_time : json.J → Except ℤ
  unfolding parse_iso8601_utc
  as_time v = json.as_text v >>= parse_iso8601_utc clock

  -- The fields of `LifecycleInfo`.
  unfoldable pub lifecycle_info : json.J → Except LifecycleInfo
  unfolding text_at lifecycle_type_at lifecycle_mode_at flag_at optional_at as_time
  lifecycle_info doc = do
    name ← text_at json (codes "name") doc
    type ← lifecycle_type_at json doc
    mode ← lifecycle_mode_at json doc
    is_provisioned ← flag_at json (codes "is_provisioned") doc
    is_running ← flag_at json (codes "is_running") doc
    last_run ← optional_at json as_time (codes "last_run") doc
    ok (record {
      name = name;
      type = type;
      mode = mode;
      is_provisioned = is_provisioned;
      is_running = is_running;
      last_run = last_run;
    })

  -- `ParseLifecycleList`
  unfoldable pub parse_lifecycle_list : json.J → Result (List LifecycleInfo)
  unfolding need for_each lifecycle_info
  parse_lifecycle_list doc =
      elim (need json (codes "lifecycles") doc >>= λ v. for_each lifecycle_info (json.elements v)) [
        | thrown ↦ failed_with [] exception_error
        | ok infos ↦ success infos
      ]

  -- The body of the `try` of `ParseFullLifecycleInfo`.
  unfoldable pub full_lifecycle_info : json.J → Except FullLifecycleInfo
  unfolding need lifecycle_info lifecycle_settings
  full_lifecycle_info doc = do
    info_json ← need json (codes "info") doc
    info ← lifecycle_info info_json
    settings_json ← need json (codes "settings") doc
    settings ← lifecycle_settings json settings_json
    ok (record { info = info; settings = settings })

  -- `ParseFullLifecycleInfo`: none stands for the empty value that comes with an error.
  unfoldable pub parse_full_lifecycle_info : json.J → Result (Option FullLifecycleInfo)
  unfolding full_lifecycle_info
  parse_full_lifecycle_info doc = elim (full_lifecycle_info doc) [
    | thrown ↦ failed_with none exception_error
    | ok info ↦ success (some info)
  ]
