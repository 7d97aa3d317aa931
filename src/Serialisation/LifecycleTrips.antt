-- ===== src/Serialisation/LifecycleTrips.antt =====
-- Settings of a lifecycle policy that are written and read back.
use mathlib.Core.Option
use reduct_cpp.Common.{◌≡◌, refl, ap, ◌∙◌, Option, some, map, codes, ok, no_error, Result}
use reduct_cpp.Json.{Json}
use reduct_cpp.Serialisation.{set_some, success}
use reduct_cpp.Serialisation.Members.{member_laws}
use reduct_cpp.Serialisation.Fields.{optional_at}
use reduct_cpp.Serialisation.FieldTrips.{
  text_at_lem, texts_at_lem, optional_text_lem, optional_when_lem, set_parsed_lem, IsCondition,
  condition,
}
use reduct_cpp.Serialisation.Lifecycles.{
  LifecycleType, delete, compress, LifecycleMode, enabled, disabled, dry_run, LifecycleSettings,
  lifecycle_mode_to_string, lifecycle_type_to_string, parse_lifecycle_mode, parse_lifecycle_type,
  lifecycle_mode_at, lifecycle_type_at, lifecycle_members, lifecycle_settings,
  lifecycle_settings_to_json_string,
}

module _ (json : Json) where
  lifecycle_mode_at_lem :
      (m : LifecycleMode) (doc : json.J)
      → json.at (codes "mode") doc ≡ some (json.text (lifecycle_mode_to_string m))
      → lifecycle_mode_at json doc ≡ ok m
  unfolding lifecycle_mode_at parse_lifecycle_mode
  lifecycle_mode_at_lem enabled doc h =
      rw
        (
          h,
          lifecycle_mode_at,
          json.is_null-text (codes "enabled"),
          json.as_text-text (codes "enabled"),
        )
        refl
  lifecycle_mode_at_lem disabled doc h =
      rw
        (
          h,
          lifecycle_mode_at,
          json.is_null-text (codes "disabled"),
          json.as_text-text (codes "disabled"),
        )
        refl
  lifecycle_mode_at_lem dry_run doc h =
      rw
        (
          h,
          lifecycle_mode_at,
          json.is_null-text (codes "dry_run"),
          json.as_text-text (codes "dry_run"),
        )
        refl

  lifecycle_type_at_lem :
      (m : LifecycleType) (doc : json.J)
      → json.at (codes "type") doc ≡ some (json.text (lifecycle_type_to_string m))
      → lifecycle_type_at json doc ≡ ok m
  unfolding lifecycle_type_at parse_lifecycle_type
  lifecycle_type_at_lem delete doc h =
      rw
        (
          h,
          lifecycle_type_at,
          json.is_null-text (codes "delete"),
          json.as_text-text (codes "delete"),
        )
        refl
  lifecycle_type_at_lem compress doc h =
      rw
        (
          h,
          lifecycle_type_at,
          json.is_null-text (codes "compress"),
          json.as_text-text (codes "compress"),
        )
        refl

  abbrev target : LifecycleSettings → json.J
  target s = json.set (codes "older_than") (json.text s.older_than) (
      json.set (codes "entries") (json.array (map json.text s.entries)) (
        json.set (codes "bucket") (json.text s.bucket)
          (json.set (codes "type") (json.text (lifecycle_type_to_string s.type)) json.null)))

  abbrev with_interval : LifecycleSettings → json.J
  with_interval s = set_some json json.text (codes "interval") s.interval (target s)

  abbrev with_mode : LifecycleSettings → json.J
  with_mode s =
      json.set (codes "mode") (json.text (lifecycle_mode_to_string s.mode)) (with_interval s)

  abbrev with_processing : LifecycleSettings → json.J
  with_processing s =
      set_some json json.text (codes "processing_interval") s.processing_interval (with_mode s)

  abbrev with_when : LifecycleSettings → Option json.J → json.J
  with_when s w = set_some json (λ v. v) (codes "when") w (with_processing s)

  module _ (s : LifecycleSettings) (w : Option json.J) where
    when_written : json.at (codes "when") (with_when s w) ≡ Option.map (λ v. v) w
    when_written = simp (member_laws, json.at-null) refl

    processing_interval_written :
        json.at (codes "processing_interval") (with_when s w)
        ≡ Option.map json.text s.processing_interval
    processing_interval_written = simp (member_laws, json.at-null) refl

    mode_written :
        json.at (codes "mode") (with_when s w) ≡ some (json.text (lifecycle_mode_to_string s.mode))
    mode_written = simp member_laws refl

    interval_written : json.at (codes "interval") (with_when s w) ≡ Option.map json.text s.interval
    interval_written = simp (member_laws, json.at-null) refl

    older_than_written :
        json.at (codes "older_than") (with_when s w) ≡ some (json.text s.older_than)
    older_than_written = simp member_laws refl

    entries_written :
        json.at (codes "entries") (with_when s w) ≡ some (json.array (map json.text s.entries))
    entries_written = simp member_laws refl

    bucket_written : json.at (codes "bucket") (with_when s w) ≡ some (json.text s.bucket)
    bucket_written = simp member_laws refl

    type_written :
        json.at (codes "type") (with_when s w) ≡ some (json.text (lifecycle_type_to_string s.type))
    type_written = simp member_laws refl

  read_back :
      (s : LifecycleSettings) (w : Option json.J)
      → optional_at json json.dump (codes "when") (with_when s w) ≡ ok s.when
      → lifecycle_settings json (with_when s w) ≡ ok s
  unfolding lifecycle_settings
  read_back s w h =
      rw
        (
          lifecycle_type_at_lem s.type (with_when s w) (type_written s w),
          text_at_lem json (codes "bucket") s.bucket (with_when s w) (bucket_written s w),
          texts_at_lem json (codes "entries") s.entries (with_when s w) (entries_written s w),
          text_at_lem json (codes "older_than") s.older_than (with_when s w)
              (older_than_written s w),
          lifecycle_mode_at_lem s.mode (with_when s w) (mode_written s w),
          optional_text_lem json (codes "interval") s.interval (with_when s w)
              (interval_written s w),
          h,
          optional_text_lem json (codes "processing_interval") s.processing_interval (with_when s w)
              (processing_interval_written s w),
        )
        refl

  written_lem :
      (s : LifecycleSettings) (h : IsCondition json s.when)
      → lifecycle_settings_to_json_string json s ≡ success (with_when s (condition json s.when h))
  unfolding lifecycle_settings_to_json_string lifecycle_members
  written_lem s h =
      rw
        (
          set_parsed_lem json (codes "when") s.when h (with_processing s),
          lifecycle_settings_to_json_string,
        )
        refl

  -- Settings of a lifecycle policy whose condition is none, or a JSON text, not null, in the form
  -- in which it is written, become a document without an error, and the settings in an answer that
  -- gives this document are the same in every field.
  pub lifecycle_settings-lifecycle_settings_to_json_string :
      (s : LifecycleSettings)
      → IsCondition json s.when
      → ((lifecycle_settings_to_json_string json s).error ≡ no_error)
        × (lifecycle_settings json (lifecycle_settings_to_json_string json s).result ≡ ok s)
  lifecycle_settings-lifecycle_settings_to_json_string s h =
      let w : Option json.J = condition json s.when h in
      let e = written_lem s h in
      (
        ap (λ (r : Result json.J). r.error) e,
        ap (λ (r : Result json.J). lifecycle_settings json r.result) e
            ∙ read_back s w
                (optional_when_lem json (codes "when") s.when h (with_when s w) (when_written s w)),
      )
