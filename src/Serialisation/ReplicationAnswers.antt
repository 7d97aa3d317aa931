-- ===== src/Serialisation/ReplicationAnswers.antt =====
-- What a server tells of replications (`ParseReplicationList` and `ParseFullReplicationInfo` of
-- src/reduct/internal/serialisation.cc).
use reduct_cpp.Common.{
  ℕ, ◌%◌, ◌-◌, ltb, ℤ, pos, negsuc, Bool, Option, none, some, List, [], ◌∷◌, Bytes, codes,
  if◌then◌else◌, Except, ok, thrown, ◌>>=◌, Result,
}
use reduct_cpp.Common.Numbers.{stoi}
use reduct_cpp.Common.Table.{Table, assign, int_ord}
use reduct_cpp.Json.{Json}
use reduct_cpp.Serialisation.{failed_with, success, exception_error}
use reduct_cpp.Serialisation.Fields.{for_each, need, text_at, count_at, flag_at}
use reduct_cpp.Serialisation.Replications.{
  ReplicationMode, ReplicationSettings, mode_at, replication_settings,
}

-- `IClient::ReplicationInfo`
pub record ReplicationInfo : Type 0 where
  pub name : Bytes
  pub mode : ReplicationMode
  pub is_active : Bool
  pub is_provisioned : Bool
  pub pending_records : ℕ

-- `DiagnosticsError`
pub record DiagnosticsError : Type 0 where
  pub count : ℕ
  pub last_message : Bytes

-- `DiagnosticsItem`
pub record DiagnosticsItem : Type 0 where
  pub succeeded : ℕ
  pub errored : ℕ
  pub errors : Table ℤ DiagnosticsError

-- `IClient::FullReplicationInfo`
pub record FullReplicationInfo : Type 0 where
  pub info : ReplicationInfo
  pub settings : ReplicationSettings
  pub hourly : DiagnosticsItem

-- An `int` stored as an `int16_t`.
abbrev pub to_int16 : ℤ → ℤ
to_int16 (pos n) = if ltb (n % 65536) 32768 then pos (n % 65536) else negsuc (65535 - n % 65536)
to_int16 (negsuc n) = if ltb (n % 65536) 32768 then negsuc (n % 65536) else pos (65535 - n % 65536)

-- The assignments to `errors`.
unfoldable pub store_errors :
    List (ℤ × DiagnosticsError) → Table ℤ DiagnosticsError → Table ℤ DiagnosticsError
unfolding assign
store_errors [] errors = errors
store_errors ((code, e) ∷ es) errors = store_errors es (assign (to_int16 code) e errors)

module _ (json : Json) where
  -- The fields of `ReplicationInfo`.
  unfoldable pub replication_info : json.J → Except ReplicationInfo
  unfolding text_at mode_at flag_at count_at
  replication_info doc = do
    name ← text_at json (codes "name") doc
    mode ← mode_at json doc
    is_active ← flag_at json (codes "is_active") doc
    is_provisioned ← flag_at json (codes "is_provisioned") doc
    pending_records ← count_at json (codes "pending_records") doc
    ok (record {
      name = name;
      mode = mode;
      is_active = is_active;
      is_provisioned = is_provisioned;
      pending_records = pending_records;
    })

  -- `ParseReplicationList`
  unfoldable pub parse_replication_list : json.J → Result (List ReplicationInfo)
  unfolding need for_each replication_info
  parse_replication_list doc =
      elim (need json (codes "replications") doc >>= λ v.
      for_each replication_info (json.elements v)) [
        | thrown ↦ failed_with [] exception_error
        | ok infos ↦ success infos
      ]

  -- One of the errors; the code is the number in front of its key.
  unfoldable pub diagnostics_error : Bytes × json.J → Except (ℤ × DiagnosticsError)
  unfolding stoi count_at text_at
  diagnostics_error (key, value) = do
    code ← stoi 10 key
    count ← count_at json (codes "count") value
    last_message ← text_at json (codes "last_message") value
    ok (code, record { count = count; last_message = last_message })

  unfoldable pub diagnostics_item : json.J → Except DiagnosticsItem
  unfolding count_at need for_each diagnostics_error store_errors
  diagnostics_item hourly = do
    succeeded ← count_at json (codes "ok") hourly
    errored ← count_at json (codes "errored") hourly
    errors ← need json (codes "errors") hourly
    listed ← for_each diagnostics_error (json.members errors)
    ok (record { succeeded = succeeded; errored = errored; errors = store_errors listed [] })

  -- The body of the `try` of `ParseFullReplicationInfo`.
  unfoldable pub full_replication_info : json.J → Except FullReplicationInfo
  unfolding need replication_info replication_settings diagnostics_item
  full_replication_info doc = do
    info_json ← need json (codes "info") doc
    info ← replication_info info_json
    settings_json ← need json (codes "settings") doc
    settings ← replication_settings json settings_json
    diagnostics ← need json (codes "diagnostics") doc
    hourly_json ← need json (codes "hourly") diagnostics
    hourly ← diagnostics_item hourly_json
    ok (record { info = info; settings = settings; hourly = hourly })

  -- `ParseFullReplicationInfo`: none stands for the empty value that comes with an error.
  unfoldable pub parse_full_replication_info : json.J → Result (Option FullReplicationInfo)
  unfolding full_replication_info
  parse_full_replication_info doc = elim (full_replication_info doc) [
    | thrown ↦ failed_with none exception_error
    | ok info ↦ success (some info)
  ]
