-- ===== src/Serialisation/ReplicationTrips.antt =====
-- Settings of a replication that are written and read back.
use mathlib.Core.Option
use reduct_cpp.Common.{
  ◌≡◌, refl, ap, ◌∙◌, Option, some, [], ◌∷◌, map, Bytes, codes, ok, no_error, Result,
}
use reduct_cpp.Json.{Json}
use reduct_cpp.Serialisation.{set_some, success}
use reduct_cpp.Serialisation.Members.{member_laws}
use reduct_cpp.Serialisation.Fields.{optional_at}
use reduct_cpp.Serialisation.FieldTrips.{
  set_parsed_lem, text_at_lem, texts_at_lem, optional_text_lem, optional_when_lem, IsCondition,
  condition,
}
use reduct_cpp.Serialisation.Replications.{
  ReplicationMode, enabled, paused, disabled, ReplicationCompression, uncompressed, zstd, gzip,
  ReplicationSettings, replication_mode_to_string, replication_compression_to_string,
  parse_replication_mode, parse_replication_compression, mode_at, compression_at, prefixed,
  compressed, replication_members, replication_settings, replication_settings_to_json_string,
}

module _ (json : Json) where
  mode_at_lem :
      (m : ReplicationMode) (doc : json.J)
      → json.at (codes "mode") doc ≡ some (json.text (replication_mode_to_string m))
      → mode_at json doc ≡ ok m
  unfolding mode_at parse_replication_mode
  mode_at_lem enabled doc h =
      rw (h, mode_at, json.is_null-text (codes "enabled"), json.as_text-text (codes "enabled")) refl
  mode_at_lem paused doc h =
      rw (h, mode_at, json.is_null-text (codes "paused"), json.as_text-text (codes "paused")) refl
  mode_at_lem disabled doc h =
      rw (h, mode_at, json.is_null-text (codes "disabled"), json.as_text-text (codes "disabled"))
        refl

  compression_at_lem :
      (c : ReplicationCompression) (doc : json.J)
      → json.at (codes "compression") doc
        ≡ Option.map (λ c. json.text (replication_compression_to_string c)) (compressed c)
      → compression_at json doc ≡ ok c
  unfolding compression_at parse_replication_compression
  compression_at_lem uncompressed doc h = rw (h, compression_at) refl
  compression_at_lem zstd doc h =
      rw (h, compression_at, json.is_null-text (codes "zstd"), json.as_text-text (codes "zstd"))
        refl
  compression_at_lem gzip doc h =
      rw (h, compression_at, json.is_null-text (codes "gzip"), json.as_text-text (codes "gzip"))
        refl

  prefixed_lem : (p : Bytes) → Option.get_or (prefixed p) [] ≡ p
  prefixed_lem [] = refl
  prefixed_lem (c ∷ p) = refl

  abbrev hosts : ReplicationSettings → json.J
  hosts s = json.set (codes "dst_host") (json.text s.dst_host) (
      json.set (codes "dst_bucket") (json.text s.dst_bucket)
        (json.set (codes "src_bucket") (json.text s.src_bucket) json.null))

  abbrev with_token : ReplicationSettings → json.J
  with_token s = set_some json json.text (codes "dst_token") s.dst_token (hosts s)

  abbrev with_prefix : ReplicationSettings → json.J
  with_prefix s =
      set_some json json.text (codes "dst_prefix") (prefixed s.dst_prefix) (with_token s)

  abbrev with_entries : ReplicationSettings → json.J
  with_entries s = json.set (codes "entries") (json.array (map json.text s.entries)) (with_prefix s)

  abbrev with_mode : ReplicationSettings → json.J
  with_mode s =
      json.set (codes "mode") (json.text (replication_mode_to_string s.mode)) (with_entries s)

  abbrev with_compression : ReplicationSettings → json.J
  with_compression s =
      set_some json (λ c. json.text (replication_compression_to_string c)) (codes "compression")
        (compressed s.compression) (with_mode s)

  abbrev with_when : ReplicationSettings → Option json.J → json.J
  with_when s w = set_some json (λ v. v) (codes "when") w (with_compression s)

  module _ (s : ReplicationSettings) (w : Option json.J) where
    when_written : json.at (codes "when") (with_when s w) ≡ Option.map (λ v. v) w
    when_written = simp (member_laws, json.at-null) refl

    compression_written :
        json.at (codes "compression") (with_when s w)
        ≡ Option.map
            (λ c. json.text (replication_compression_to_string c))
            (compressed s.compression)
    compression_written = simp (member_laws, json.at-null) refl

    mode_written :
        json.at (codes "mode") (with_when s w)
        ≡ some (json.text (replication_mode_to_string s.mode))
    mode_written = simp member_laws refl

    entries_written :
        json.at (codes "entries") (with_when s w) ≡ some (json.array (map json.text s.entries))
    entries_written = simp member_laws refl

    dst_prefix_written :
        json.at (codes "dst_prefix") (with_when s w) ≡ Option.map json.text (prefixed s.dst_prefix)
    dst_prefix_written = simp (member_laws, json.at-null) refl

    dst_token_written :
        json.at (codes "dst_token") (with_when s w) ≡ Option.map json.text s.dst_token
    dst_token_written = simp (member_laws, json.at-null) refl

    dst_host_written : json.at (codes "dst_host") (with_when s w) ≡ some (json.text s.dst_host)
    dst_host_written = simp member_laws refl

    dst_bucket_written :
        json.at (codes "dst_bucket") (with_when s w) ≡ some (json.text s.dst_bucket)
    dst_bucket_written = simp member_laws refl

    src_bucket_written :
        json.at (codes "src_bucket") (with_when s w) ≡ some (json.text s.src_bucket)
    src_bucket_written = simp member_laws refl

  read_back :
      (s : ReplicationSettings) (w : Option json.J)
      → optional_at json json.dump (codes "when") (with_when s w) ≡ ok s.when
      → replication_settings json (with_when s w) ≡ ok s
  unfolding replication_settings
  read_back s w h =
      rw
        (
          text_at_lem json (codes "src_bucket") s.src_bucket (with_when s w)
              (src_bucket_written s w),
          text_at_lem json (codes "dst_bucket") s.dst_bucket (with_when s w)
              (dst_bucket_written s w),
          text_at_lem json (codes "dst_host") s.dst_host (with_when s w) (dst_host_written s w),
          texts_at_lem json (codes "entries") s.entries (with_when s w) (entries_written s w),
          mode_at_lem s.mode (with_when s w) (mode_written s w),
          compression_at_lem s.compression (with_when s w) (compression_written s w),
          optional_text_lem json (codes "dst_token") s.dst_token (with_when s w)
              (dst_token_written s w),
          optional_text_lem json (codes "dst_prefix") (prefixed s.dst_prefix) (with_when s w)
              (dst_prefix_written s w),
          h,
          prefixed_lem s.dst_prefix,
        )
        refl

  written_lem :
      (s : ReplicationSettings) (h : IsCondition json s.when)
      → replication_settings_to_json_string json s ≡ success (with_when s (condition json s.when h))
  unfolding replication_settings_to_json_string replication_members
  written_lem s h =
      rw
        (
          set_parsed_lem json (codes "when") s.when h (with_compression s),
          replication_settings_to_json_string,
        )
        refl

  -- Settings of a replication whose condition is none, or a JSON text, not null, in the form in
  -- which it is written, become a document without an error, and the settings in an answer that
  -- gives this document are the same in every field.
  pub replication_settings-replication_settings_to_json_string :
      (s : ReplicationSettings)
      → IsCondition json s.when
      → ((replication_settings_to_json_string json s).error ≡ no_error)
        × (replication_settings json (replication_settings_to_json_string json s).result ≡ ok s)
  replication_settings-replication_settings_to_json_string s h =
      let w : Option json.J = condition json s.when h in
      let e = written_lem s h in
      (
        ap (λ (r : Result json.J). r.error) e,
        ap (λ (r : Result json.J). replication_settings json r.result) e
            ∙ read_back s w
                (optional_when_lem json (codes "when") s.when h (with_when s w) (when_written s w)),
      )
