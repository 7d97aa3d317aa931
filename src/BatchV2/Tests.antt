-- ===== src/BatchV2/Tests.antt =====
-- Examples of protocol v2.
use reduct_cpp.Common.{
  ℕ, ◌<◌, ◌==◌, Bytes, ◌≡◌, ◌≢◌, refl, none, ok, false, some, [], ◌∷◌, codes, arith,
}
use reduct_cpp.Format.Plain.{plain_fmt}
use reduct_cpp.BatchV1.{write}
use reduct_cpp.BatchV2.Decode.{encode_entry_name, decode_entry_name}
use reduct_cpp.Batch.{Record}
use reduct_cpp.BatchV2.Decode.{trim}
use reduct_cpp.BatchV2.Records.{parse_record_header_v2}
use reduct_cpp.BatchV2.Labels.{IsLabel}
use reduct_cpp.BatchV2.HeaderTrip.{read_back, parse-build_header_value_v2}
use reduct_cpp.BatchV2.Build.{build_header_value_v2}
use reduct_cpp.BatchV2.Names.{IsName, decode-encode_entry_name, encode_entry_name_percent}

-- A byte of a name.
byte : (c : ℕ) → c < 256 → (c == b'%') ≡ false → (c < 256) × (c ≢ b'%')
byte c lt ne = (lt, λ e. absurd (ground (arith, e, ne)))

a_slash_b : IsName (codes "a/b")
a_slash_b = (
  byte b'a' (omega arith) refl,
  (byte b'/' (omega arith) refl, (byte b'b' (omega arith) refl, tt)),
)

just_b : IsName (codes "b")
just_b = (byte b'b' (omega arith) refl, tt)

cons_ne : {c : ℕ} {s : Bytes} → (c ∷ s) ≢ []
cons_ne e = absurd (cc e)

decode-encode_entry_name_example :
    decode_entry_name (encode_entry_name plain_fmt (codes "a/b")) ≡ some (codes "a/b")
decode-encode_entry_name_example = decode-encode_entry_name plain_fmt (codes "a/b") a_slash_b

encode_entry_name_percent_example :
    decode_entry_name (encode_entry_name plain_fmt (codes "b%41b")) ≡ some (codes "bAb")
encode_entry_name_percent_example =
    encode_entry_name_percent plain_fmt (codes "b") b'A' (codes "b") just_b (omega arith) just_b

-- A record with a value that holds a comma.
abbrev labelled : Record
labelled = record {
  entry = codes "e";
  timestamp = 0;
  size = 3;
  content_type = codes "text/plain";
  labels = (codes "k", codes "x,y") ∷ [];
  data_index = none;
}

k_x_y : IsLabel (codes "k", codes "x,y")
unfolding trim
k_x_y = (
  ((λ e. absurd (omega (arith, e)), tt), refl, refl),
  (
    (
      λ e. absurd (omega (arith, e)),
      (λ e. absurd (omega (arith, e)), (λ e. absurd (omega (arith, e)), tt)),
    ),
    refl,
    cons_ne,
  ),
)

text_plain : trim (codes "text/plain") ≡ codes "text/plain"
unfolding trim
text_plain = refl

parse-build_header_value_v2_example :
    parse_record_header_v2 (build_header_value_v2 plain_fmt labelled write) none none
    ≡ ok (some (read_back labelled))
parse-build_header_value_v2_example =
    parse-build_header_value_v2 plain_fmt labelled (omega arith) (omega arith) text_plain (tt, tt)
      (k_x_y, tt)
