-- ===== src/Common/Decimal.antt =====
-- The order of decimal prints of one length is that of their numbers.
use Prim.Native.Nat.{ℕ, ◌+◌, ◌*◌, ◌≤◌, ◌<◌}
use mathlib.Core.Path.{◌≡◌, refl}
use mathlib.Core.Logic.{inl, inr}
use mathlib.Core.Bool.{true, false}
use mathlib.Core.List.{[], ◌∷◌}
use native.Mathlib.Omega.{arith}
use reduct_cpp.Common.Tests.{Bool-cases, ltb, ◌==◌}
use reduct_cpp.Common.Lists.{length, All}
use reduct_cpp.Common.Text.{Bytes, ◌<?◌}
use reduct_cpp.Common.Numbers.{
  IsDigit, digit_value, read_digits, to_string, to_string-All-IsDigit, read_digits-to_string,
}

digit_value_lem : (c : ℕ) → IsDigit c → (digit_value c + b'0' ≡ c) × (ltb (digit_value c) 10 ≡ true)
digit_value_lem c h = (ground arith, ground arith)

-- A digit is read behind the number before it.
pub read_digits-cons :
    (a c : ℕ) (s : Bytes)
    → IsDigit c
    → read_digits 10 a (c ∷ s) ≡ read_digits 10 (a * 10 + digit_value c) s
unfolding read_digits
read_digits-cons a c s h = rw ((digit_value_lem c h).1, read_digits) refl

read_digits_lt :
    (a b : ℕ) (s t : Bytes)
    → All IsDigit s
    → All IsDigit t
    → length s ≡ length t
    → a < b
    → read_digits 10 a s < read_digits 10 b t
read_digits_lt a b [] [] hs ht e lt = unfold read_digits in lt
read_digits_lt a b [] (d ∷ t) hs ht e lt = absurd (omega arith)
read_digits_lt a b (c ∷ s) [] hs ht e lt = absurd (omega arith)
read_digits_lt a b (c ∷ s) (d ∷ t) (hc, hs) (hd, ht) e lt =
    rw (read_digits-cons a c s hc, read_digits-cons b d t hd)
      (read_digits_lt (a * 10 + digit_value c) (b * 10 + digit_value d) s t hs ht (omega arith)
        (omega (arith, (digit_value_lem c hc).0, (digit_value_lem d hd).0, hc, hd)))

read_digits_le :
    (a : ℕ) (s t : Bytes)
    → All IsDigit s
    → All IsDigit t
    → length s ≡ length t
    → (s <? t) ≡ false
    → read_digits 10 a t ≤ read_digits 10 a s
read_digits_le a [] [] hs ht e ge = unfold read_digits in omega arith
read_digits_le a [] (d ∷ t) hs ht e ge = absurd (omega arith)
read_digits_le a (c ∷ s) [] hs ht e ge = absurd (omega arith)
read_digits_le a (c ∷ s) (d ∷ t) (hc, hs) (hd, ht) e ge = elim (Bool-cases (c == d)) [
  | inl same ↦
      let q : c ≡ d = ground arith in
      let rest : (s <? t) ≡ false = ground (arith, ge, same) in
      rw (read_digits-cons a c s hc, read_digits-cons a d t hd, q)
        (read_digits_le (a * 10 + digit_value d) s t hs ht (omega arith) rest)
  | inr differ ↦
      let big : d < c = ground (arith, ge, differ) in
      rw (read_digits-cons a c s hc, read_digits-cons a d t hd)
        (omega (
          arith,
          read_digits_lt (a * 10 + digit_value d) (a * 10 + digit_value c) t s ht hs (omega arith)
              (omega (arith, (digit_value_lem c hc).0, (digit_value_lem d hd).0, hc, hd)),
        ))
]

-- Of numbers with as many digits, the smaller one's print comes first.
pub to_string-<? :
    (m n : ℕ)
    → length (to_string m) ≡ length (to_string n)
    → m < n
    → (to_string m <? to_string n) ≡ true
to_string-<? m n e lt = elim (Bool-cases (to_string m <? to_string n)) [
  | inl before ↦ before
  | inr ge ↦
      let back =
        read_digits_le 0 (to_string m) (to_string n) (to_string-All-IsDigit m)
          (to_string-All-IsDigit n) e ge in
      absurd (omega (arith, back, read_digits-to_string m, read_digits-to_string n))
]
