-- ===== src/Serialisation.antt =====
-- The JSON documents of the API (src/reduct/internal/serialisation.cc) over the JSON library. A
-- time is a number of nanoseconds since the epoch.
pub mod Fields
pub mod Members
pub mod RoundTrips
pub mod Replications
pub mod ReplicationAnswers
pub mod Lifecycles
pub mod Tokens
pub mod FieldTrips
pub mod ReplicationTrips
pub mod LifecycleTrips
mod Tests
use mathlib.Core.Option
use reduct_cpp.Common.{
  ℕ, ◌+◌, ◌*◌, ◌/◌, Bool, true, false, Option, none, some, List, [], ◌∷◌, map, Bytes, codes,
  get_elem?, ◌=?◌, if◌then◌else◌, Except, ok, thrown, ◌>>=◌, or_else, Error, no_error, is_error,
  neg, Result,
}
use reduct_cpp.Json.{Json}

-- `IBucket::QuotaType`
pub data QuotaType : Type 0 where
  quota_none fifo hard : QuotaType

-- `IBucket::Settings`
pub record Settings : Type 0 where
  pub max_block_size : Option ℕ
  pub quota_type : Option QuotaType
  pub quota_size : Option ℕ
  pub max_block_records : Option ℕ

-- `IBucket::QueryOptions` without the poll interval; `ttl` counts milliseconds.
pub record QueryOptions : Type 0 where
  pub when : Option Bytes
  pub strict : Option Bool
  pub ext : Option Bytes
  pub ttl : Option ℕ
  pub continuous : Bool
  pub head_only : Bool

-- `IBucket::QueryLinkOptions`
pub record QueryLinkOptions : Type 0 where
  pub start : Option ℕ
  pub stop : Option ℕ
  pub query_options : QueryOptions
  pub record_index : ℕ
  pub record_entry : Option Bytes
  pub record_timestamp : Option ℕ
  pub expire_at : Option ℕ
  pub file_name : Option Bytes
  pub base_url : Option Bytes

-- `IBucket::Status`
pub data Status : Type 0 where
  ready deleting : Status

-- The name of a quota in the document.
abbrev pub quota_name : QuotaType → Bytes
quota_name quota_none = codes "NONE"
quota_name fifo = codes "FIFO"
quota_name hard = codes "HARD"

-- An error with the code -1 and the text of the exception, which is not modelled.
abbrev pub exception_error : Error
exception_error = record { code = neg 1; message = codes "exception" }

abbrev pub failed_with : {A : Type 0} → A → Error → Result A
failed_with empty err = record { result = empty; error = err }

abbrev pub success : {A : Type 0} → A → Result A
success a = record { result = a; error = no_error }

module _ (json : Json) where
  -- `if (value) data[key] = *value`
  unfoldable pub set_some : {A : Type 0} → (A → json.J) → Bytes → Option A → json.J → json.J
  set_some write key none doc = doc
  set_some write key (some v) doc = json.set key (write v) doc

  -- `BucketSettingToJsonString`
  unfoldable pub bucket_setting_to_json_string : Settings → json.J
  unfolding set_some
  bucket_setting_to_json_string s =
      set_some json.number (codes "max_block_records") s.max_block_records (
        set_some json.number (codes "quota_size") s.quota_size (
          set_some (λ q. json.text (quota_name q)) (codes "quota_type") s.quota_type
            (set_some json.number (codes "max_block_size") s.max_block_size json.null)))

  -- `if (json.contains(key)) value = json[key]` of a number.
  unfoldable pub number_at : Bytes → json.J → Except (Option ℕ)
  number_at key doc = elim (json.at key doc) [
    | none ↦ ok none
    | some v ↦ (do n ← json.as_number v; ok (some n))
  ]

  -- The chain of tests of `quota_type`; another value leaves it unset.
  abbrev quota_named : Bytes → Option QuotaType
  quota_named name =
      if name =? codes "NONE"
      then some quota_none
      else if name =? codes "FIFO"
      then some fifo
      else if name =? codes "HARD"
      then some hard
      else none

  unfoldable pub quota_at : json.J → Option QuotaType
  quota_at doc = elim (json.at (codes "quota_type") doc) [
    | none ↦ none
    | some v ↦ elim (json.as_text v) [ thrown ↦ none | ok name ↦ quota_named name ]
  ]

  -- The body of the `try` of `ParseBucketSettings`.
  unfoldable pub read_settings : json.J → Except Settings
  unfolding number_at quota_at
  read_settings doc = do
    max_block_size ← number_at (codes "max_block_size") doc
    quota_size ← number_at (codes "quota_size") doc
    max_block_records ← number_at (codes "max_block_records") doc
    ok (record {
      max_block_size = max_block_size;
      quota_type = quota_at doc;
      quota_size = quota_size;
      max_block_records = max_block_records;
    })

  abbrev pub no_settings : Settings
  no_settings = record {
    max_block_size = none;
    quota_type = none;
    quota_size = none;
    max_block_records = none;
  }

  -- `ParseBucketSettings`
  unfoldable pub parse_bucket_settings : json.J → Result Settings
  unfolding read_settings
  parse_bucket_settings doc = elim (read_settings doc) [
    | thrown ↦ failed_with no_settings exception_error
    | ok s ↦ success s
  ]

  -- `ParseStatus`
  unfoldable pub parse_status : json.J → Except Status
  parse_status doc = elim (json.at (codes "status") doc) [
    | none ↦ ok ready
    | some v ↦ (do name ← json.as_text v; ok (if name =? codes "DELETING" then deleting else ready))
  ]

  -- A member that is given as a JSON text.
  unfoldable pub set_parsed : Bytes → Option Bytes → json.J → Except json.J
  set_parsed key none doc = ok doc
  set_parsed key (some text) doc = do v ← json.parse text; ok (json.set key v doc)

  abbrev only_true : Bool → Option Bool
  only_true true = some true
  only_true false = none

  -- `QueryOptionsToJsonString`; a text that cannot be parsed is answered with an error.
  unfoldable pub query_options_to_json_string :
      Bytes → List Bytes → Option ℕ → Option ℕ → QueryOptions → Result json.J
  unfolding set_some set_parsed
  query_options_to_json_string type entries start stop options =
      let times =
        set_some (λ us. json.number (us / 1000)) (codes "stop") stop
          (set_some (λ us. json.number (us / 1000)) (codes "start") start
            (json.set (codes "entries") (json.array (map json.text entries))
              (json.set (codes "query_type") (json.text type) json.null))) in
      let flags =
        set_some json.boolean (codes "continuous") (only_true options.continuous)
          (set_some (λ ms. json.number (ms / 1000)) (codes "ttl") options.ttl times) in
      elim (do
        with_when ← set_parsed (codes "when") options.when flags
        set_parsed (codes "ext") options.ext
            (set_some json.boolean (codes "strict") options.strict with_when)) [
              | thrown ↦ failed_with json.null exception_error
              | ok doc ↦ success doc
            ]

  -- A day, the default time to expire.
  abbrev day : ℕ
  day = 24 * 3600 * 1000000000

  -- `QueryLinkOptionsToJsonString` at the time `now`; `at(0)` throws for no entries.
  unfoldable pub query_link_options_to_json_string :
      ℕ → Bytes → List Bytes → QueryLinkOptions → Except (Result json.J)
  unfolding set_some query_options_to_json_string
  query_link_options_to_json_string now bucket entries options =
      let named = json.set (codes "bucket") (json.text bucket) json.null in
      let indexed : json.J = elim options.record_entry [
        | some _ ↦ named
        | none ↦ elim options.record_timestamp [
          | some _ ↦ named
          | none ↦ json.set (codes "index") (json.number options.record_index) named
        ]
      ] in
      let selected =
        set_some (λ us. json.number (us / 1000)) (codes "record_timestamp") options.record_timestamp
          (set_some json.text (codes "record_entry") options.record_entry indexed) in
      let query =
        query_options_to_json_string (codes "QUERY") entries options.start options.stop
          options.query_options in
      elim (get_elem? entries 0) [
        | none ↦ thrown
        | some entry ↦ ok (
            if is_error query.error
            then failed_with json.null query.error
            else success (
                set_some json.text (codes "base_url") options.base_url (
                  set_some json.text (codes "file_name") options.file_name (
                    json.set (codes "expire_at")
                      (json.number (Option.get_or options.expire_at (now + day) / 1000000000))
                      (json.set (codes "query") query.result
                        (json.set (codes "entry") (json.text entry) selected))))))
      ]
