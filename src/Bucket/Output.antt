-- ===== src/Bucket/Output.antt =====
-- The output operators of bucket.cc: the settings and the information on buckets and entries as
-- text.
use reduct_cpp.Common.{ℕ, ◌/◌, Bool, true, false, ◌++◌, Bytes, codes, Except}
use reduct_cpp.Format.{Fmt}
use reduct_cpp.Json.{Json}
use reduct_cpp.Serialisation.{Settings, Status, ready, deleting, bucket_setting_to_json_string}
use reduct_cpp.Bucket.Info.{BucketInfo, EntryInfo}

-- `info.is_provisioned ? "true" : "false"`
abbrev pub provisioned_text : Bool → Bytes
provisioned_text true = codes "true"
provisioned_text false = codes "false"

-- `info.status == IBucket::Status::kReady ? "READY" : "DELETING"`
abbrev pub status_text : Status → Bytes
status_text ready = codes "READY"
status_text deleting = codes "DELETING"

-- `operator<<` of settings
unfoldable pub settings_text : (json : Json) → Settings → Except Bytes
unfolding bucket_setting_to_json_string
settings_text json settings = json.dump (bucket_setting_to_json_string json settings)

module _ (fmt : Fmt) where
  -- A time in microseconds.
  abbrev pub micros_text : ℕ → Bytes
  micros_text time = fmt.uint (time / 1000)

  -- `operator<<` of `BucketInfo`
  unfoldable pub bucket_info_text : BucketInfo → Bytes
  bucket_info_text info =
      codes "<BucketInfo name="
      ++ (info.name
          ++ (codes ", entry_count="
              ++ (fmt.uint info.entry_count
                  ++ (codes ", size="
                      ++ (fmt.uint info.size
                          ++ (codes ", oldest_record="
                              ++ (micros_text info.oldest_record
                                  ++ (codes ", latest_record="
                                      ++ (micros_text info.latest_record
                                          ++ (codes ", is_provisioned="
                                              ++ (provisioned_text info.is_provisioned
                                                  ++ (codes ", status="
                                                      ++ (status_text info.status
                                                          ++ codes ">")))))))))))))

  -- `operator<<` of `EntryInfo`
  unfoldable pub entry_info_text : EntryInfo → Bytes
  entry_info_text info =
      codes "<EntryInfo name="
      ++ (info.name
          ++ (codes ", record_count="
              ++ (fmt.uint info.record_count
                  ++ (codes ", block_count="
                      ++ (fmt.uint info.block_count
                          ++ (codes ", size="
                              ++ (fmt.uint info.size
                                  ++ (codes ", oldest_record="
                                      ++ (micros_text info.oldest_record
                                          ++ (codes ", latest_record="
                                              ++ (micros_text info.latest_record
                                                  ++ (codes ", status="
                                                      ++ (status_text info.status
                                                          ++ codes ">")))))))))))))
