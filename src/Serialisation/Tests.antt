-- ===== src/Serialisation/Tests.antt =====
-- Examples of documents.
use reduct_cpp.Common.{◌≡◌, refl, none, some, [], ◌∷◌, codes, ok, no_error}
use reduct_cpp.Json.Plain.{plain_json}
use reduct_cpp.Serialisation.{
  Settings, fifo, bucket_setting_to_json_string, parse_bucket_settings, success,
}
use reduct_cpp.Serialisation.RoundTrips.{parse_bucket_settings-bucket_setting_to_json_string}
use reduct_cpp.Serialisation.FieldTrips.{IsCondition}
use reduct_cpp.Serialisation.Replications.{
  ReplicationSettings, paused, gzip, replication_settings, replication_settings_to_json_string,
}
use reduct_cpp.Serialisation.ReplicationTrips.{
  replication_settings-replication_settings_to_json_string,
}
use reduct_cpp.Serialisation.Lifecycles.{LifecycleSettings, compress, dry_run}

abbrev some_settings : Settings
some_settings = record {
  max_block_size = some 1000;
  quota_type = some fifo;
  quota_size = none;
  max_block_records = some 5;
}

parse_bucket_settings_example :
    parse_bucket_settings plain_json (bucket_setting_to_json_string plain_json some_settings)
    ≡ success some_settings
parse_bucket_settings_example =
    parse_bucket_settings-bucket_setting_to_json_string plain_json some_settings

every_record : IsCondition plain_json (some (codes "{}"))
unfolding plain_json
every_record = (_, refl, refl, refl)

abbrev mirror : ReplicationSettings
mirror = record {
  src_bucket = codes "a";
  dst_bucket = codes "b";
  dst_host = codes "http://c";
  dst_token = none;
  dst_prefix = codes "p";
  entries = codes "x" ∷ codes "y" ∷ [];
  when = some (codes "{}");
  mode = paused;
  compression = gzip;
}

replication_settings_example :
    ((replication_settings_to_json_string plain_json mirror).error ≡ no_error)
    × (replication_settings plain_json
          (replication_settings_to_json_string plain_json mirror).result
        ≡ ok mirror)
replication_settings_example =
    replication_settings-replication_settings_to_json_string plain_json mirror every_record

abbrev weekly : LifecycleSettings
weekly = record {
  type = compress;
  bucket = codes "a";
  entries = [];
  older_than = codes "7d";
  interval = some (codes "1h");
  when = some (codes "{}");
  mode = dry_run;
  processing_interval = none;
}
