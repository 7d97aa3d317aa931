-- ===== src/Format.antt =====
-- What the library takes from fmt, which is not part of the repository: how a number is rendered.
-- Strings put into a format are copied, so the model appends them.
pub mod Plain
use reduct_cpp.Common.{ℕ, ◌+◌, ◌-◌, ◌/◌, ◌%◌, ◌<◌, ◌≡◌, [], ◌∷◌, Bytes, ltb, if◌then◌else◌}
use reduct_cpp.Common.Numbers.{to_string}

-- An upper-case digit of base 16.
abbrev pub hex_digit : ℕ → ℕ
hex_digit d = if ltb d 10 then b'0' + d else b'A' + (d - 10)

pub record Fmt : Type 0 where
  -- `fmt::format("{}", n)` of an unsigned number
  pub uint : ℕ → Bytes
  -- `fmt::format("{:02X}", n)` of a byte
  pub hex2 : ℕ → Bytes
  -- the documented output: decimal digits as `std::to_string` writes them
  pub uint_decimal : (n : ℕ) → uint n ≡ to_string n
  -- the documented output: two upper-case digits of base 16
  pub hex2_digits : (n : ℕ) → n < 256 → hex2 n ≡ hex_digit (n / 16) ∷ hex_digit (n % 16) ∷ []
