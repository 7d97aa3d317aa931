-- ===== src/Clients/Policies.antt =====
-- Replications and lifecycle policies of the server.
use reduct_cpp.Common.{
  Option, none, List, [], ◌∷◌, ◌++◌, Bytes, codes, if◌then◌else◌, Except, ok, thrown, Error,
  is_error, Result,
}
use reduct_cpp.Http.{delete, patch}
use reduct_cpp.Json.{Json}
use reduct_cpp.Time.{Clock}
use reduct_cpp.Serialisation.{exception_error}
use reduct_cpp.Serialisation.Replications.{
  ReplicationMode, ReplicationSettings, replication_mode_to_string,
  replication_settings_to_json_string,
}
use reduct_cpp.Serialisation.ReplicationAnswers.{
  ReplicationInfo, FullReplicationInfo, parse_replication_list, parse_full_replication_info,
}
use reduct_cpp.Serialisation.Lifecycles.{
  LifecycleInfo, LifecycleMode, LifecycleSettings, FullLifecycleInfo, lifecycle_mode_to_string,
  lifecycle_settings_to_json_string, parse_lifecycle_list, parse_full_lifecycle_info,
}
use reduct_cpp.Bucket.{Client}
use reduct_cpp.Bucket.Info.{get_parsed}

abbrev pub replication_path : Bytes → Bytes
replication_path name = codes "/replications/" ++ name

abbrev pub lifecycle_path : Bytes → Bytes
lifecycle_path name = codes "/lifecycles/" ++ name

module _ {W : Type 0} (json : Json) (client : Client W) where
  -- A document that is sent by a method, unless it comes with an error.
  unfoldable pub send_document : (Bytes → W → Error × W) → Result json.J → W → Except Error × W
  send_document method document w =
      if is_error document.error
      then (ok document.error, w)
      else (elim (json.dump document.result) [
        | thrown ↦ (thrown, w)
        | ok body ↦ let answered = method body w in (ok answered.0, answered.1)
      ])

  -- A mode that is set; an exception of `dump` is caught.
  unfoldable pub patch_mode : Bytes → Bytes → W → Error × W
  patch_mode path mode w = elim (json.dump (json.set (codes "mode") (json.text mode) json.null)) [
    | thrown ↦ (exception_error, w)
    | ok body ↦
        let sent =
          client.send (patch path body ((codes "Content-Type", codes "application/json") ∷ [])) w in
        (sent.0.error, sent.1)
  ]

  -- `GetReplicationList`
  unfoldable pub get_replication_list : W → Result (List ReplicationInfo) × W
  unfolding get_parsed parse_replication_list
  get_replication_list w =
      get_parsed json client (codes "/replications") []
        (λ doc. ok (parse_replication_list json doc)) w

  -- `GetReplication`
  unfoldable pub get_replication : Bytes → W → Result (Option FullReplicationInfo) × W
  unfolding get_parsed parse_full_replication_info
  get_replication name w =
      get_parsed json client (replication_path name) none
        (λ doc. ok (parse_full_replication_info json doc)) w

  -- `CreateReplication`
  unfoldable pub create_replication : Bytes → ReplicationSettings → W → Except Error × W
  unfolding send_document replication_settings_to_json_string
  create_replication name settings w =
      send_document (client.post (replication_path name))
        (replication_settings_to_json_string json settings) w

  -- `UpdateReplication`
  unfoldable pub update_replication : Bytes → ReplicationSettings → W → Except Error × W
  unfolding send_document replication_settings_to_json_string
  update_replication name settings w =
      send_document (client.put (replication_path name))
        (replication_settings_to_json_string json settings) w

  -- `SetReplicationMode`
  unfoldable pub set_replication_mode : Bytes → ReplicationMode → W → Error × W
  unfolding patch_mode
  set_replication_mode name mode w =
      patch_mode (replication_path name ++ codes "/mode") (replication_mode_to_string mode) w

  -- `RemoveReplication`
  unfoldable pub remove_replication : Bytes → W → Error × W
  remove_replication name w =
      let sent = client.send (delete (replication_path name) []) w in (sent.0.error, sent.1)

  -- `GetLifecycleList`
  unfoldable pub get_lifecycle_list : Clock → W → Result (List LifecycleInfo) × W
  unfolding get_parsed parse_lifecycle_list
  get_lifecycle_list clock w =
      get_parsed json client (codes "/lifecycles") []
        (λ doc. ok (parse_lifecycle_list json clock doc)) w

  -- `GetLifecycle`
  unfoldable pub get_lifecycle : Clock → Bytes → W → Result (Option FullLifecycleInfo) × W
  unfolding get_parsed parse_full_lifecycle_info
  get_lifecycle clock name w =
      get_parsed json client (lifecycle_path name) none
        (λ doc. ok (parse_full_lifecycle_info json clock doc)) w

  -- `CreateLifecycle`
  unfoldable pub create_lifecycle : Bytes → LifecycleSettings → W → Except Error × W
  unfolding send_document lifecycle_settings_to_json_string
  create_lifecycle name settings w =
      send_document (client.post (lifecycle_path name))
        (lifecycle_settings_to_json_string json settings) w

  -- `UpdateLifecycle`
  unfoldable pub update_lifecycle : Bytes → LifecycleSettings → W → Except Error × W
  unfolding send_document lifecycle_settings_to_json_string
  update_lifecycle name settings w =
      send_document (client.put (lifecycle_path name))
        (lifecycle_settings_to_json_string json settings) w

  -- `SetLifecycleMode`
  unfoldable pub set_lifecycle_mode : Bytes → LifecycleMode → W → Error × W
  unfolding patch_mode
  set_lifecycle_mode name mode w =
      patch_mode (lifecycle_path name ++ codes "/mode") (lifecycle_mode_to_string mode) w

  -- `RemoveLifecycle`
  unfoldable pub remove_lifecycle : Bytes → W → Error × W
  remove_lifecycle name w =
      let sent = client.send (delete (lifecycle_path name) []) w in (sent.0.error, sent.1)
