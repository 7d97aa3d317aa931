-- ===== src/BatchV2/Names.antt =====
-- Entry names in headers: encoding one, reading it back, and lists of names.
use mathlib.Core.Option
use reduct_cpp.Common.{
  ℕ, ◌/◌, ◌%◌, ◌<◌, ◌≡◌, ◌≢◌, refl, ap, false, some, List, [], ◌∷◌, ◌++◌, map, Bytes, All, Lacks,
  ◌==◌, is_empty, inl, inr, Bool-cases, join, getlines-join, arith,
}
use reduct_cpp.Format.{Fmt, hex_digit}
use reduct_cpp.BatchV2.Decode.{
  is_plain, encode_entry_name, trim_front, trim_back, trim, decode_entry_name, decode_item,
  decode_items, parse_encoded_list,
}
use reduct_cpp.BatchV2.Digits.{
  IsToken, stoi_hex, plain-IsToken, hex_digit-IsToken, hex_digit-is_plain,
}

-- The bytes of a name that survives the encoding: '%' is not encoded, so it is read as the start
-- of an encoded byte.
abbrev pub IsName : Bytes → Type 0
IsName = All (λ c. (c < 256) × (c ≢ b'%'))

decode_plain :
    (c : ℕ) (s : Bytes)
    → c ≢ b'%'
    → decode_entry_name (c ∷ s) ≡ Option.map (◌∷◌ c) (decode_entry_name s)
unfolding decode_entry_name
decode_plain c [] h = ground arith
decode_plain c (d ∷ []) h = ground arith
decode_plain c (d ∷ e ∷ s) h =
    let n : (c == b'%') ≡ false = ground arith in rw (n, decode_entry_name)

decode_coded :
    (c : ℕ) (s : Bytes)
    → c < 256
    → decode_entry_name (b'%' ∷ hex_digit (c / 16) ∷ hex_digit (c % 16) ∷ s)
      ≡ Option.map (◌∷◌ c) (decode_entry_name s)
unfolding decode_entry_name
decode_coded c s lt =
    let e : c % 256 ≡ c = omega arith in
    rw (stoi_hex c lt, decode_entry_name) (ap (λ n. Option.map (◌∷◌ n) (decode_entry_name s)) e)

All-IsToken-trim_front : (s : Bytes) → All IsToken s → trim_front s ≡ s
unfolding trim_front
All-IsToken-trim_front [] h = refl
All-IsToken-trim_front (c ∷ s) ((_, b), h) = rw b

All-IsToken-trim_back : (s : Bytes) → All IsToken s → trim_back s ≡ s
unfolding trim_back
All-IsToken-trim_back [] h = refl
All-IsToken-trim_back (c ∷ s) ((_, b), h) = rw b (ap (◌∷◌ c) (All-IsToken-trim_back s h))

-- Nothing is trimmed from an encoded name.
pub trim-IsToken : (s : Bytes) → All IsToken s → trim s ≡ s
unfolding trim
trim-IsToken s h = rw (All-IsToken-trim_front s h) (All-IsToken-trim_back s h)

module _ (fmt : Fmt) where
  -- An entry name, of bytes, is read back from its encoding, if it holds no '%'.
  pub decode-encode_entry_name :
      (entry : Bytes) → IsName entry → decode_entry_name (encode_entry_name fmt entry) ≡ some entry
  unfolding encode_entry_name
  decode-encode_entry_name [] h = unfold decode_entry_name in refl
  decode-encode_entry_name (c ∷ entry) ((lt, ne), h) = elim (Bool-cases (is_plain c)) [
    | inl plain ↦
        rw (plain, decode_plain c (encode_entry_name fmt entry) ne)
          (ap (Option.map (◌∷◌ c)) (decode-encode_entry_name entry h))
    | inr coded ↦
        rw (coded, fmt.hex2_digits c lt, decode_coded c (encode_entry_name fmt entry) lt)
          (ap (Option.map (◌∷◌ c)) (decode-encode_entry_name entry h))
  ]

  pub encode_entry_name-IsToken :
      (entry : Bytes) → IsName entry → All IsToken (encode_entry_name fmt entry)
  unfolding encode_entry_name
  encode_entry_name-IsToken [] h = tt
  encode_entry_name-IsToken (c ∷ entry) ((lt, ne), h) = elim (Bool-cases (is_plain c)) [
    | inl plain ↦ rw plain (plain-IsToken c lt plain, encode_entry_name-IsToken entry h)
    | inr coded ↦
        rw (coded, fmt.hex2_digits c lt)
          (
            (ground arith, refl),
            (
              hex_digit-IsToken (c / 16) (omega arith),
              (hex_digit-IsToken (c % 16) (omega arith), encode_entry_name-IsToken entry h),
            ),
          )
  ]

  encode_entry_name-ne-nil :
      (entry : Bytes) → IsName entry → entry ≢ [] → encode_entry_name fmt entry ≢ []
  unfolding encode_entry_name
  encode_entry_name-ne-nil [] h n = absurd (n refl)
  encode_entry_name-ne-nil (c ∷ entry) h n = elim (Bool-cases (is_plain c)) [
    | inl plain ↦ rw plain (cc)
    | inr coded ↦ rw coded (cc)
  ]

  All-IsToken-Lacks : (s : Bytes) → All IsToken s → Lacks b',' s
  All-IsToken-Lacks [] h = tt
  All-IsToken-Lacks (c ∷ s) ((n, _), h) = (n, All-IsToken-Lacks s h)

  encoded_parts :
      (entries : List Bytes)
      → All (λ e. IsName e × (e ≢ [])) entries
      → All (λ p. Lacks b',' p × (p ≢ [])) (map (encode_entry_name fmt) entries)
  encoded_parts [] h = tt
  encoded_parts (e ∷ entries) ((name, n), h) = (
    (
      All-IsToken-Lacks (encode_entry_name fmt e) (encode_entry_name-IsToken e name),
      encode_entry_name-ne-nil e name n,
    ),
    encoded_parts entries h,
  )

  decode_item-encode_entry_name :
      (e : Bytes) → IsName e → e ≢ [] → decode_item (encode_entry_name fmt e) ≡ e ∷ []
  unfolding decode_item
  decode_item-encode_entry_name e name n =
      rw
        (
          trim-IsToken (encode_entry_name fmt e) (encode_entry_name-IsToken e name),
          is_empty_of_ne (encode_entry_name fmt e) (encode_entry_name-ne-nil e name n),
          decode-encode_entry_name e name,
        )
        refl
    where
      is_empty_of_ne : (s : Bytes) → s ≢ [] → is_empty s ≡ false
      is_empty_of_ne [] n = absurd (n refl)
      is_empty_of_ne (c ∷ s) n = refl

  decode_items-encode :
      (entries : List Bytes)
      → All (λ e. IsName e × (e ≢ [])) entries
      → decode_items (map (encode_entry_name fmt) entries) ≡ entries
  unfolding decode_items
  decode_items-encode [] h = refl
  decode_items-encode (e ∷ entries) ((name, n), h) =
      rw (decode_item-encode_entry_name e name n) (ap (◌∷◌ e) (decode_items-encode entries h))

  -- The list of names that a request sends is read back as it was, if no name is empty or holds
  -- a '%'.
  pub parse_encoded_list-join :
      (entries : List Bytes)
      → All (λ e. IsName e × (e ≢ [])) entries
      → parse_encoded_list (join (b',' ∷ []) (map (encode_entry_name fmt) entries)) ≡ entries
  unfolding parse_encoded_list
  parse_encoded_list-join entries h =
      rw (getlines-join b',' (map (encode_entry_name fmt) entries) (encoded_parts entries h))
        (decode_items-encode entries h)

-- '%' itself is not encoded: a name of bytes that holds one '%', with two upper-case digits of
-- base 16 behind it, is read back as another name, with the byte that they spell in their place.
pub encode_entry_name_percent :
    (fmt : Fmt) (front : Bytes) (c : ℕ) (entry : Bytes)
    → IsName front
    → c < 256
    → IsName entry
    → decode_entry_name
        (encode_entry_name fmt (front ++ b'%' ∷ hex_digit (c / 16) ∷ hex_digit (c % 16) ∷ entry))
      ≡ some (front ++ c ∷ entry)
unfolding encode_entry_name
encode_entry_name_percent fmt [] c entry tt lt h =
    rw
      (
        hex_digit-is_plain (c / 16) (omega arith),
        hex_digit-is_plain (c % 16) (omega arith),
        decode_coded c (encode_entry_name fmt entry) lt,
      )
      (ap (Option.map (◌∷◌ c)) (decode-encode_entry_name fmt entry h))
encode_entry_name_percent fmt (d ∷ front) c entry ((small, ne), named) lt h =
    let rest =
      encode_entry_name fmt (front ++ b'%' ∷ hex_digit (c / 16) ∷ hex_digit (c % 16) ∷ entry) in
    elim (Bool-cases (is_plain d)) [
      | inl plain ↦
          rw (plain, decode_plain d rest ne)
            (ap (Option.map (◌∷◌ d)) (encode_entry_name_percent fmt front c entry named lt h))
      | inr coded ↦
          rw (coded, fmt.hex2_digits d small, decode_coded d rest small)
            (ap (Option.map (◌∷◌ d)) (encode_entry_name_percent fmt front c entry named lt h))
    ]
