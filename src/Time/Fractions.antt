-- ===== src/Time/Fractions.antt =====
-- Times written and read back, and what a fraction of a second adds.
use reduct_cpp.Common.{
  ℕ, zero, suc, ◌+◌, ◌*◌, ◌/◌, ◌^◌, ◌<◌, ◌≡◌, refl, ◌∙◌, pos, some, [], ◌∷◌, ◌++◌, Bytes, codes,
  ◌-◌, cut-none, ok, arith,
}
use reduct_cpp.Time.{
  Clock, year_10000, second, split_last, read_seconds, parse_clean, parse_iso8601_utc,
  to_iso8601_utc,
}

split_last-append : (s : Bytes) (c : ℕ) → split_last (s ++ c ∷ []) ≡ some (s, c)
unfolding split_last
split_last-append [] c = refl
split_last-append (d ∷ s) c = rw (split_last-append s c) refl

-- m * 10 ^ k
abbrev times_ten : ℕ → ℕ → ℕ
times_ten zero m = m
times_ten (suc k) m = times_ten k (m * 10)

-- The digits of a fraction by their places, as many as are given: the first of six counts hundred
-- thousands of microseconds, the next ten thousands, and digits behind the last place do not count.
unfoldable pub place_value : ℕ → Bytes → ℕ
place_value zero s = 0
place_value (suc k) [] = 0
place_value (suc k) (c ∷ s) = (c - b'0') * 10 ^ k + place_value k s

abbrev pub micros_of : Bytes → ℕ
micros_of fraction = place_value 6 fraction

module _ (clock : Clock) where
  parse_iso8601_utc-Z :
      (clean : Bytes) → parse_iso8601_utc clock (clean ++ codes "Z") ≡ parse_clean clock clean
  unfolding parse_iso8601_utc
  parse_iso8601_utc-Z clean = rw (split_last-append clean b'Z', parse_iso8601_utc) refl

  read_seconds-put_time :
      (t : ℕ)
      → t < year_10000
      → read_seconds clock (clock.put_time (clock.gmtime (pos t))) ≡ ok (pos (t * second))
  unfolding read_seconds
  read_seconds-put_time t h =
      rw (clock.get_time-put_time t h, read_seconds, clock.timegm-gmtime t h) refl

  -- A time before the year 10000 that is written and read back is its second: what is less than a
  -- second is dropped.
  pub parse_iso8601_utc-to_iso8601_utc :
      (time : ℕ)
      → time < year_10000 * second
      → parse_iso8601_utc clock (to_iso8601_utc clock time) ≡ ok (pos (time / second * second))
  unfolding to_iso8601_utc parse_clean
  parse_iso8601_utc-to_iso8601_utc time h =
      let lt : time / second < year_10000 = omega (arith, h) in
      parse_iso8601_utc-Z (clock.put_time (clock.gmtime (pos (time / second))))
      ∙ rw (cut-none b'.' _ (clock.put_time-Lacks (time / second) lt), parse_clean)
          (read_seconds-put_time (time / second) lt)
