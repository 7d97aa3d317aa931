-- ===== src/Time.antt =====
-- Times as text (src/reduct/internal/time_parse.h, and `ToIso8601Utc` of src/reduct/client.cc). A
-- time counts nanoseconds since the epoch, as integers without a bound.
pub mod Plain
pub mod Fractions
mod Tests
use reduct_cpp.Common.{
  ℕ, ◌+◌, ◌-◌, ◌*◌, ◌/◌, ◌<◌, ◌≡◌, ℤ, pos, negsuc, ◌==ℤ◌, ◌+ℤ◌, scale, Bool, true, false, ◌&&◌,
  ◌||◌, Option, none, some, List, [], ◌∷◌, ◌++◌, Bytes, codes, Lacks, length, take, replicate, ltb,
  leb, ◌==◌, is_empty, cut, if◌then◌else◌, Except, ok, thrown, ◌>>=◌,
}
use reduct_cpp.Common.Numbers.{stoll}

-- The first second of the year 10000.
abbrev pub year_10000 : ℕ
year_10000 = 253402300800

-- What the code takes from the C library: `std::tm`, `std::get_time` and `std::put_time` with the
-- format "%Y-%m-%dT%H:%M:%S" in the classic locale, `timegm` and `std::gmtime` on seconds since the
-- epoch. How much of a text `get_time` accepts differs between the libraries.
pub record Clock : Type 1 where
  pub Tm : Type 0
  -- none where the stream fails
  pub get_time : Bytes → Option Tm
  pub put_time : Tm → Bytes
  pub timegm : Tm → ℤ
  pub gmtime : ℤ → Tm
  -- the documented behaviour: `timegm` inverts `gmtime`, and the text of a year of four digits is
  -- read back; it holds digits, '-', 'T' and ':' only
  pub timegm-gmtime : (t : ℕ) → t < year_10000 → timegm (gmtime (pos t)) ≡ pos t
  pub get_time-put_time :
      (t : ℕ) → t < year_10000 → get_time (put_time (gmtime (pos t))) ≡ some (gmtime (pos t))
  pub put_time-Lacks : (t : ℕ) → t < year_10000 → Lacks b'.' (put_time (gmtime (pos t)))

abbrev pub second : ℕ
second = 1000000000

-- A text without its last character, and that character.
unfoldable pub split_last : Bytes → Option (Bytes × ℕ)
split_last [] = none
split_last (c ∷ s) = elim (split_last s) [
  | none ↦ some ([], c)
  | some (front, last) ↦ some (c ∷ front, last)
]

-- `resize(6)`, or `append` of zeros up to six digits.
abbrev pub six_digits : Bytes → Bytes
six_digits fraction =
    if ltb 6 (length fraction)
    then take 6 fraction
    else fraction ++ replicate (6 - length fraction) b'0'

-- `find_first_not_of("0123456789")` finds nothing.
unfoldable pub all_digits : Bytes → Bool
all_digits [] = true
all_digits (c ∷ s) = (leb b'0' c && leb c b'9') && all_digits s

-- What is done with the fraction behind the dot.
unfoldable pub add_fraction : ℤ → Bytes → Except ℤ
unfolding all_digits stoll
add_fraction parsed_time fraction =
    if is_empty fraction
    then thrown
    else if all_digits (six_digits fraction)
    then (stoll (six_digits fraction) >>= λ micros. ok (parsed_time +ℤ scale 1000 micros))
    else thrown

module _ (clock : Clock) where
  -- `get_time` and `timegm`; the time -1 is taken for the failure that it also stands for.
  unfoldable pub read_seconds : Bytes → Except ℤ
  read_seconds time_part = elim (clock.get_time time_part) [
    | none ↦ thrown
    | some tm ↦ if clock.timegm tm ==ℤ negsuc 0 then thrown else ok (scale second (clock.timegm tm))
  ]

  -- The text in front of the 'Z'.
  unfoldable pub parse_clean : Bytes → Except ℤ
  unfolding cut read_seconds add_fraction
  parse_clean clean = elim (cut b'.' clean) [
    | none ↦ read_seconds clean
    | some (time_part, fraction) ↦
        read_seconds time_part >>= λ parsed_time. add_fraction parsed_time fraction
  ]

  -- `parse_iso8601_utc`
  unfoldable pub parse_iso8601_utc : Bytes → Except ℤ
  unfolding split_last parse_clean
  parse_iso8601_utc iso_str = elim (split_last iso_str) [
    | none ↦ thrown
    | some (clean, last) ↦ if (last == b'Z') || (last == b'z') then parse_clean clean else thrown
  ]

  -- `ToIso8601Utc`: `to_time_t` drops what is less than a second.
  unfoldable pub to_iso8601_utc : ℕ → Bytes
  to_iso8601_utc time = clock.put_time (clock.gmtime (pos (time / second))) ++ codes "Z"
