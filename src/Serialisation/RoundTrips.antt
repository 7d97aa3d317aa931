-- ===== src/Serialisation/RoundTrips.antt =====
-- Reading back the settings of a bucket that the code wrote.
use mathlib.Core.Option
use reduct_cpp.Common.{ℕ, ◌≡◌, refl, Option, none, some, Bytes, codes, ok}
use reduct_cpp.Json.{Json}
use reduct_cpp.Serialisation.Members.{member_laws}
use reduct_cpp.Serialisation.{
  Settings, QuotaType, quota_none, fifo, hard, quota_name, bucket_setting_to_json_string,
  parse_bucket_settings, read_settings, set_some, number_at, quota_at, success,
}

module _ (json : Json) where
  number_at_lem :
      (key : Bytes) (v : Option ℕ) (doc : json.J)
      → json.at key doc ≡ Option.map json.number v
      → number_at json key doc ≡ ok v
  unfolding number_at
  number_at_lem key none doc h = rw (h, number_at) refl
  number_at_lem key (some n) doc h = rw (h, number_at, json.as_number-number n) refl

  quota_at_lem :
      (q : Option QuotaType) (doc : json.J)
      → json.at (codes "quota_type") doc ≡ Option.map (λ q. json.text (quota_name q)) q
      → quota_at json doc ≡ q
  unfolding quota_at
  quota_at_lem none doc h = rw (h, quota_at) refl
  quota_at_lem (some quota_none) doc h = rw (h, quota_at, json.as_text-text (codes "NONE")) refl
  quota_at_lem (some fifo) doc h = rw (h, quota_at, json.as_text-text (codes "FIFO")) refl
  quota_at_lem (some hard) doc h = rw (h, quota_at, json.as_text-text (codes "HARD")) refl

  abbrev with_block : Settings → json.J
  with_block s = set_some json json.number (codes "max_block_size") s.max_block_size json.null

  abbrev with_quota : Settings → json.J
  with_quota s =
      set_some json (λ q. json.text (quota_name q)) (codes "quota_type") s.quota_type (with_block s)

  abbrev with_size : Settings → json.J
  with_size s = set_some json json.number (codes "quota_size") s.quota_size (with_quota s)

  abbrev with_records : Settings → json.J
  with_records s =
      set_some json json.number (codes "max_block_records") s.max_block_records (with_size s)

  records_at :
      (s : Settings)
      → json.at (codes "max_block_records") (with_records s)
        ≡ Option.map json.number s.max_block_records
  records_at s = simp (member_laws, json.at-null) refl

  size_at :
      (s : Settings)
      → json.at (codes "quota_size") (with_records s) ≡ Option.map json.number s.quota_size
  size_at s = simp (member_laws, json.at-null) refl

  type_at :
      (s : Settings)
      → json.at (codes "quota_type") (with_records s)
        ≡ Option.map (λ q. json.text (quota_name q)) s.quota_type
  type_at s = simp (member_laws, json.at-null) refl

  block_at :
      (s : Settings)
      → json.at (codes "max_block_size") (with_records s) ≡ Option.map json.number s.max_block_size
  block_at s = simp (member_laws, json.at-null) refl

  read_settings_lem : (s : Settings) → read_settings json (with_records s) ≡ ok s
  unfolding read_settings
  read_settings_lem s =
      rw
        (
          number_at_lem (codes "max_block_size") s.max_block_size (with_records s) (block_at s),
          number_at_lem (codes "quota_size") s.quota_size (with_records s) (size_at s),
          number_at_lem (codes "max_block_records") s.max_block_records (with_records s)
              (records_at s),
          quota_at_lem s.quota_type (with_records s) (type_at s),
        )
        refl

  -- Settings that are written into a document and read back are the same, for each member that is
  -- set or not.
  pub parse_bucket_settings-bucket_setting_to_json_string :
      (s : Settings) → parse_bucket_settings json (bucket_setting_to_json_string json s) ≡ success s
  unfolding parse_bucket_settings bucket_setting_to_json_string
  parse_bucket_settings-bucket_setting_to_json_string s =
      rw (read_settings_lem s, parse_bucket_settings) refl
