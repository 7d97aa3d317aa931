-- ===== src/Format/Plain.antt =====
-- A rendering of numbers with the documented output, for examples.
use reduct_cpp.Common.{◌/◌, ◌%◌, refl, [], ◌∷◌}
use reduct_cpp.Common.Numbers.{to_string}
use reduct_cpp.Format.{Fmt, hex_digit}

abbrev pub plain_fmt : Fmt
plain_fmt = record {
  uint = to_string;
  hex2 = λ n. hex_digit (n / 16) ∷ hex_digit (n % 16) ∷ [];
  uint_decimal = λ n. refl;
  hex2_digits = λ n h. refl;
}
