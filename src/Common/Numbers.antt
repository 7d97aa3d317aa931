-- ===== src/Common/Numbers.antt =====
-- `std::to_string` and the `std::sto…` family, which follow `strtol` and `strtoull`.
-- An integer read is a sign and a magnitude; `long` and `long long` have 64 bits.
use Prim.Native.Nat.{ℕ, zero, suc, ◌+◌, ◌-◌, ◌*◌, ◌/◌, ◌%◌, ◌^◌, ◌≤◌, ◌<◌}
use mathlib.Core.Path.{◌≡◌, refl, sym, ap, ◌∙◌}
use mathlib.Core.Logic.{◌≢◌, inl, inr}
use mathlib.Core.Bool.{Bool, true, false, ◌&&◌, ◌||◌}
use mathlib.Core.Option.{Option, none, some}
use mathlib.Core.List.{[], ◌∷◌, ◌++◌, append_assoc, append-nil}
use native.Mathlib.Omega.{arith}
use reduct_cpp.Common.Tests.{◌==◌, ltb, leb, if◌then◌else◌, Bool-cases}
use reduct_cpp.Common.Lists.{All, All-append}
use reduct_cpp.Common.Text.{Bytes, is_space, is_digit}
use reduct_cpp.Common.Errors.{Except, ok, thrown}
use reduct_cpp.Common.Int.{ℤ, pos, neg}

abbrev pub u64_mod : ℕ
u64_mod = 2 ^ 64

-- The system clock counts nanoseconds in a signed number of 64 bits: a time point from the epoch
-- on is below this.
abbrev pub ns_limit : ℕ
ns_limit = 2 ^ 63

-- `Time{std::chrono::microseconds(us)}`, the bits of the count: a product that leaves the 64 bits
-- wraps around.
abbrev pub ns_of : ℕ → ℕ
ns_of us = us * 1000 % u64_mod

-- The digits of `n` with enough fuel for each division by ten.
print_digits : ℕ → ℕ → Bytes
print_digits zero n = []
print_digits (suc fuel) n = elim (ltb n 10) [
  | true ↦ (b'0' + n) ∷ []
  | false ↦ print_digits fuel (n / 10) ++ (b'0' + n % 10) ∷ []
]

-- `std::to_string` of an unsigned integer.
unfoldable pub to_string : ℕ → Bytes
unfolding print_digits
to_string n = print_digits (suc n) n

-- The value of a digit in bases up to 36; what is no digit has a value past every base.
abbrev pub digit_value : ℕ → ℕ
digit_value c =
    if is_digit c
    then c - b'0'
    else if leb b'A' c && leb c b'Z'
    then c - b'A' + 10
    else if leb b'a' c && leb c b'z'
    then c - b'a' + 10
    else 36

-- The digits at the front of the text, behind a number `acc`.
unfoldable pub read_digits : ℕ → ℕ → Bytes → ℕ
read_digits base acc [] = acc
read_digits base acc (c ∷ s) = elim (ltb (digit_value c) base) [
  | true ↦ read_digits base (acc * base + digit_value c) s
  | false ↦ acc
]

abbrev starts_digit : ℕ → Bytes → Bool
starts_digit base [] = false
starts_digit base (c ∷ s) = ltb (digit_value c) base

-- No conversion is possible without a digit.
read_magnitude : ℕ → Bytes → Option ℕ
unfolding read_digits
read_magnitude base s = if starts_digit base s then some (read_digits base 0 s) else none

-- In base 16 a "0x" in front of a digit is skipped.
skip_prefix : ℕ → Bytes → Bytes
skip_prefix base (c ∷ x ∷ s) =
    if (base == 16) && (c == b'0') && ((x == b'x') || (x == b'X')) && starts_digit base s
    then s
    else c ∷ x ∷ s
skip_prefix base s = s

-- A sign (true for '-') with what was read behind it.
abbrev with_sign : Bool → Option ℕ → Option (Bool × ℕ)
with_sign sign none = none
with_sign sign (some n) = some (sign, n)

read_sign : ℕ → Bytes → Option (Bool × ℕ)
unfolding read_magnitude skip_prefix
read_sign base [] = none
read_sign base (c ∷ s) =
    if c == b'-'
    then with_sign true (read_magnitude base (skip_prefix base s))
    else if c == b'+'
    then with_sign false (read_magnitude base (skip_prefix base s))
    else with_sign false (read_magnitude base (skip_prefix base (c ∷ s)))

-- White space in front is skipped, and what follows the digits is left unread.
read_integer : ℕ → Bytes → Option (Bool × ℕ)
unfolding read_sign
read_integer base [] = none
read_integer base (c ∷ s) = elim (is_space c) [
  | true ↦ read_integer base s
  | false ↦ read_sign base (c ∷ s)
]

-- A negated magnitude wraps around.
abbrev unsigned_in_range : Bool × ℕ → Except ℕ
unsigned_in_range (sign, n) =
    if leb u64_mod n then thrown else if sign then ok ((u64_mod - n) % u64_mod) else ok n

-- `std::stoul` and `std::stoull`: no digits, or a magnitude past 64 bits, throws.
unfoldable pub stoull : Bytes → Except ℕ
unfolding read_integer
stoull s = elim (read_integer 10 s) [ none ↦ thrown | some r ↦ unsigned_in_range r ]

abbrev signed_in_range : ℕ → Bool × ℕ → Except ℤ
signed_in_range bits (true, n) = if leb n (2 ^ (bits - 1)) then ok (neg n) else thrown
signed_in_range bits (false, n) = if ltb n (2 ^ (bits - 1)) then ok (pos n) else thrown

-- `std::stoi` in a base, and `std::stoll`.
unfoldable pub stoi : ℕ → Bytes → Except ℤ
unfolding read_integer
stoi base s = elim (read_integer base s) [ none ↦ thrown | some r ↦ signed_in_range 32 r ]

unfoldable pub stoll : Bytes → Except ℤ
unfolding read_integer
stoll s = elim (read_integer 10 s) [ none ↦ thrown | some r ↦ signed_in_range 64 r ]

abbrev pub IsDigit : ℕ → Type 0
IsDigit c = (b'0' ≤ c) × (c ≤ b'9')

digit_value_decimal : (d : ℕ) → d < 10 → digit_value (b'0' + d) ≡ d
digit_value_decimal d h = ground arith

print_digits-All-IsDigit : (fuel n : ℕ) → All IsDigit (print_digits fuel n)
unfolding print_digits
print_digits-All-IsDigit zero n = tt
print_digits-All-IsDigit (suc fuel) n = elim (Bool-cases (ltb n 10)) [
  | inl small ↦ rw (small, print_digits) ((omega arith, ground arith), tt)
  | inr big ↦
      rw (big, print_digits)
        (All-append IsDigit _ _ (print_digits-All-IsDigit fuel (n / 10))
          ((omega arith, omega arith), tt))
]

pub to_string-All-IsDigit : (n : ℕ) → All IsDigit (to_string n)
unfolding to_string
to_string-All-IsDigit n = print_digits-All-IsDigit (suc n) n

append-ne-nil : (s : Bytes) (c : ℕ) → (s ++ c ∷ []) ≢ []
append-ne-nil [] c = cc
append-ne-nil (d ∷ s) c = cc

pub to_string-ne-nil : (n : ℕ) → to_string n ≢ []
unfolding to_string
to_string-ne-nil n = elim (Bool-cases (ltb n 10)) [
  | inl small ↦ rw (small, print_digits) (cc)
  | inr big ↦ rw (big, print_digits) (append-ne-nil _ _)
]

-- The digits of `n` are read as `n`, whatever the text goes on with.
read_digits-print_digits :
    (fuel n : ℕ) (rest : Bytes)
    → n < fuel
    → read_digits 10 0 (print_digits fuel n ++ rest) ≡ read_digits 10 n rest
unfolding print_digits
read_digits-print_digits zero n rest h = absurd (omega arith)
read_digits-print_digits (suc fuel) n rest h = elim (Bool-cases (ltb n 10)) [
  | inl small ↦ rw (small, print_digits) (unfold read_digits in ground arith)
  | inr big ↦
      rw (big, print_digits, append_assoc)
        (read_digits-print_digits fuel (n / 10) ((b'0' + n % 10) ∷ rest) (ground arith)
          ∙ read_digit (n / 10) (n % 10) n rest (omega arith) (omega arith))
]
  where
    read_digit :
        (q d m : ℕ) (s : Bytes)
        → d < 10
        → q * 10 + d ≡ m
        → read_digits 10 q ((b'0' + d) ∷ s) ≡ read_digits 10 m s
    read_digit q d m s h e = unfold read_digits in ground (arith, digit_value_decimal d)

read_integer_digits :
    (s : Bytes) → s ≢ [] → All IsDigit s → read_integer 10 s ≡ some (false, read_digits 10 0 s)
unfolding read_integer read_sign read_magnitude skip_prefix
read_integer_digits [] n h = absurd (n refl)
read_integer_digits (c ∷ []) n (h, _) = ground arith
read_integer_digits (c ∷ d ∷ s) n (h, _) = ground arith

pub read_digits-to_string : (n : ℕ) → read_digits 10 0 (to_string n) ≡ n
unfolding to_string
read_digits-to_string n =
    ap (read_digits 10 0) (sym (append-nil (print_digits (suc n) n)))
    ∙ read_digits-print_digits (suc n) n [] (omega arith)
    ∙ (unfold read_digits in refl)

read_integer-to_string : (n : ℕ) → read_integer 10 (to_string n) ≡ some (false, n)
read_integer-to_string n =
    rw (read_integer_digits (to_string n) (to_string-ne-nil n) (to_string-All-IsDigit n))
      (ap (λ k. some (false, k)) (read_digits-to_string n))

-- Every 64-bit number is read back from its decimal print.
pub stoull-to_string : (n : ℕ) → n < u64_mod → stoull (to_string n) ≡ ok n
unfolding stoull
stoull-to_string n h = rw (read_integer-to_string n, stoull) (ground arith)

pub stoll-to_string : (n : ℕ) → n < 2 ^ 63 → stoll (to_string n) ≡ ok (pos n)
unfolding stoll
stoll-to_string n h = rw (read_integer-to_string n, stoll) (ground arith)

-- Digits are read as the number that they stand for.
pub stoll_digits :
    (s : Bytes)
    → s ≢ []
    → All IsDigit s
    → read_digits 10 0 s < 2 ^ 63
    → stoll s ≡ ok (pos (read_digits 10 0 s))
unfolding stoll
stoll_digits s n h lt = rw (read_integer_digits s n h, stoll) (ground arith)

pub stoi-to_string : (n : ℕ) → n < 2 ^ 31 → stoi 10 (to_string n) ≡ ok (pos n)
unfolding stoi
stoi-to_string n h = rw (read_integer-to_string n, stoi) (ground arith)
