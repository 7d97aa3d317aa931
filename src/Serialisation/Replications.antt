-- ===== src/Serialisation/Replications.antt =====
-- The settings of replications as documents (src/reduct/internal/serialisation.cc).
use mathlib.Core.Option
use reduct_cpp.Common.{
  Option, none, some, List, [], map, Bytes, codes, ◌=?◌, is_empty, if◌then◌else◌, Except, ok,
  thrown, ◌>>=◌, Result,
}
use reduct_cpp.Common.Table.{int_ord}
use reduct_cpp.Json.{Json}
use reduct_cpp.Serialisation.{set_some, set_parsed, failed_with, success, exception_error}
use reduct_cpp.Serialisation.Fields.{text_at, texts_at, optional_at}

-- `IClient::ReplicationMode`
pub data ReplicationMode : Type 0 where
  enabled paused disabled : ReplicationMode

-- `IClient::ReplicationCompression`
pub data ReplicationCompression : Type 0 where
  uncompressed zstd gzip : ReplicationCompression

-- `IClient::ReplicationSettings`
pub record ReplicationSettings : Type 0 where
  pub src_bucket : Bytes
  pub dst_bucket : Bytes
  pub dst_host : Bytes
  pub dst_token : Option Bytes
  pub dst_prefix : Bytes
  pub entries : List Bytes
  pub when : Option Bytes
  pub mode : ReplicationMode
  pub compression : ReplicationCompression

-- `ReplicationModeToString`
abbrev pub replication_mode_to_string : ReplicationMode → Bytes
replication_mode_to_string enabled = codes "enabled"
replication_mode_to_string paused = codes "paused"
replication_mode_to_string disabled = codes "disabled"

-- `ReplicationCompressionToString`
abbrev pub replication_compression_to_string : ReplicationCompression → Bytes
replication_compression_to_string uncompressed = codes "none"
replication_compression_to_string zstd = codes "zstd"
replication_compression_to_string gzip = codes "gzip"

abbrev pub mode_named : Bytes → Except ReplicationMode
mode_named mode =
    if mode =? codes "enabled"
    then ok enabled
    else if mode =? codes "paused"
    then ok paused
    else if mode =? codes "disabled"
    then ok disabled
    else thrown

abbrev pub compression_named : Bytes → Except ReplicationCompression
compression_named compression =
    if compression =? codes "none"
    then ok uncompressed
    else if compression =? codes "zstd"
    then ok zstd
    else if compression =? codes "gzip"
    then ok gzip
    else thrown

abbrev pub prefixed : Bytes → Option Bytes
prefixed prefix = if is_empty prefix then none else some prefix

abbrev pub compressed : ReplicationCompression → Option ReplicationCompression
compressed uncompressed = none
compressed zstd = some zstd
compressed gzip = some gzip

module _ (json : Json) where
  -- `ParseReplicationMode`
  unfoldable pub parse_replication_mode : json.J → Except ReplicationMode
  parse_replication_mode mode_json =
      if json.is_null mode_json then ok enabled else (json.as_text mode_json >>= mode_named)

  -- `ParseReplicationCompression`
  unfoldable pub parse_replication_compression : json.J → Except ReplicationCompression
  parse_replication_compression compression_json =
      if json.is_null compression_json
      then ok uncompressed
      else (json.as_text compression_json >>= compression_named)

  unfoldable pub mode_at : json.J → Except ReplicationMode
  unfolding parse_replication_mode
  mode_at doc = elim (json.at (codes "mode") doc) [
    | none ↦ ok enabled
    | some v ↦ parse_replication_mode v
  ]

  unfoldable pub compression_at : json.J → Except ReplicationCompression
  unfolding parse_replication_compression
  compression_at doc = elim (json.at (codes "compression") doc) [
    | none ↦ ok uncompressed
    | some v ↦ parse_replication_compression v
  ]

  -- The members of `ReplicationSettingsToJsonString` in front of the condition.
  unfoldable pub replication_members : ReplicationSettings → json.J
  unfolding set_some
  replication_members s =
      let hosts = json.set (codes "dst_host") (json.text s.dst_host) (
        json.set (codes "dst_bucket") (json.text s.dst_bucket)
          (json.set (codes "src_bucket") (json.text s.src_bucket) json.null)) in
      let target =
        set_some json json.text (codes "dst_prefix") (prefixed s.dst_prefix)
          (set_some json json.text (codes "dst_token") s.dst_token hosts) in
      set_some json (λ c. json.text (replication_compression_to_string c)) (codes "compression")
        (compressed s.compression)
        (json.set (codes "mode") (json.text (replication_mode_to_string s.mode))
          (json.set (codes "entries") (json.array (map json.text s.entries)) target))

  -- `ReplicationSettingsToJsonString`
  unfoldable pub replication_settings_to_json_string : ReplicationSettings → Result json.J
  unfolding replication_members set_parsed
  replication_settings_to_json_string s =
      elim (set_parsed json (codes "when") s.when (replication_members s)) [
        | thrown ↦ failed_with json.null exception_error
        | ok doc ↦ success doc
      ]

  -- The fields of `ReplicationSettings`; a prefix that is missing stays empty.
  unfoldable pub replication_settings : json.J → Except ReplicationSettings
  unfolding text_at texts_at mode_at compression_at optional_at
  replication_settings doc = do
    src_bucket ← text_at json (codes "src_bucket") doc
    dst_bucket ← text_at json (codes "dst_bucket") doc
    dst_host ← text_at json (codes "dst_host") doc
    entries ← texts_at json (codes "entries") doc
    mode ← mode_at doc
    compression ← compression_at doc
    dst_token ← optional_at json json.as_text (codes "dst_token") doc
    dst_prefix ← optional_at json json.as_text (codes "dst_prefix") doc
    when ← optional_at json json.dump (codes "when") doc
    ok (record {
      src_bucket = src_bucket;
      dst_bucket = dst_bucket;
      dst_host = dst_host;
      dst_token = dst_token;
      dst_prefix = Option.get_or dst_prefix [];
      entries = entries;
      when = when;
      mode = mode;
      compression = compression;
    })
