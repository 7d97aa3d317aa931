-- ===== src/BatchV2/Digits.antt =====
-- The characters and digits of encoded names, by evaluation on all bytes.
use reduct_cpp.Common.{
  ℕ, zero, suc, ◌/◌, ◌%◌, ◌<◌, ◌≡◌, ◌≢◌, refl, Bool, true, false, not, ◌&&◌, ◌||◌, [], ◌∷◌, ◌==◌,
  is_blank, Except, ok, thrown, ℤ, pos, negsuc, arith,
}
use reduct_cpp.Common.Numbers.{stoi}
use reduct_cpp.Format.{hex_digit}
use reduct_cpp.BatchV2.Decode.{is_plain}

-- The test passes on the given number of bytes, from 0 on.
table : (ℕ → Bool) → ℕ → Bool
table test zero = true
table test (suc count) = table test count && test count

read_table : {c count : ℕ} (test : ℕ → Bool) → c < count → table test count ≡ true → test c ≡ true
unfolding table
read_table {count = zero} test below passed = absurd (omega arith)
read_table {c = c} {count = suc count} test below passed =
    ground (arith, read_table {c = c} {count = count} test)

abbrev is_number : ℕ → Except ℤ → Bool
is_number n (ok (pos m)) = m == n
is_number n (ok (negsuc m)) = false
is_number n thrown = false

is_number_iff : (n : ℕ) (e : Except ℤ) → is_number n e ≡ true → e ≡ ok (pos n)
is_number_iff n (ok (pos m)) h = ground arith
is_number_iff n (ok (negsuc m)) h = cc
is_number_iff n thrown h = cc

hex_table :
    table (λ n. is_number n (stoi 16 (hex_digit (n / 16) ∷ hex_digit (n % 16) ∷ []))) 256 ≡ true
unfolding table stoi
hex_table = refl

-- The two digits of a byte are read as the byte.
pub stoi_hex :
    (n : ℕ) → n < 256 → stoi 16 (hex_digit (n / 16) ∷ hex_digit (n % 16) ∷ []) ≡ ok (pos n)
stoi_hex n h = is_number_iff n _ (read_table _ h hex_table)

-- A character of an encoded name.
abbrev pub IsToken : ℕ → Type 0
IsToken c = (c ≢ b',') × (is_blank c ≡ false)

plain_table : table (λ c. not (is_plain c) || (not (c == b',') && not (is_blank c))) 256 ≡ true
unfolding table
plain_table = refl

pub plain-IsToken : (c : ℕ) → c < 256 → is_plain c ≡ true → IsToken c
plain-IsToken c h p =
    let t =
      read_table {c = c} (λ c. not (is_plain c) || (not (c == b',') && not (is_blank c))) h
        plain_table in
    token c (is_plain c) p t
  where
    token :
        (c : ℕ) (b : Bool)
        → b ≡ true
        → (not b || (not (c == b',') && not (is_blank c))) ≡ true
        → IsToken c
    token c b p t = ground arith

pub hex_digit-IsToken : (d : ℕ) → d < 16 → IsToken (hex_digit d)
hex_digit-IsToken d h = ground arith

digit_table : table (λ d. is_plain (hex_digit d)) 16 ≡ true
unfolding table
digit_table = refl

pub hex_digit-is_plain : (d : ℕ) → d < 16 → is_plain (hex_digit d) ≡ true
hex_digit-is_plain d h = read_table {c = d} (λ d. is_plain (hex_digit d)) h digit_table
