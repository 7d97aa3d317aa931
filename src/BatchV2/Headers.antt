-- ===== src/BatchV2/Headers.antt =====
-- The name of a record's header is read back as the entry's index and the time behind the start.
use reduct_cpp.Common.{
  ℕ, ◌<◌, ◌≡◌, ◌≢◌, refl, false, some, [], ◌∷◌, ◌++◌, Bytes, All, Lacks, starts_with, rcut-append,
  arith,
}
use reduct_cpp.Common.Numbers.{
  u64_mod, to_string, IsDigit, to_string-All-IsDigit, to_string-ne-nil, stoull-to_string,
}
use reduct_cpp.Format.{Fmt}
use reduct_cpp.BatchV1.{header_error_prefix}
use reduct_cpp.BatchV2.Decode.{header_prefix, parse_batched_header_name_v2}
use reduct_cpp.BatchV2.Build.{record_header_name}

pub digits-Lacks : (b : ℕ) (s : Bytes) → b < b'0' → All IsDigit s → Lacks b s
digits-Lacks b [] lt h = tt
digits-Lacks b (c ∷ s) lt (d, h) = (omega arith, digits-Lacks b s lt h)

not_error :
    (s rest : Bytes)
    → s ≢ []
    → All IsDigit s
    → starts_with header_error_prefix (header_prefix ++ (s ++ rest)) ≡ false
not_error [] rest n h = absurd (n refl)
not_error (c ∷ s) rest n (d, h) = ground arith

-- A header's name holds the index and the number that were put into it, for numbers below 2 ^ 64.
pub parse_batched_header_name_v2_lem :
    (fmt : Fmt) (idx delta : ℕ)
    → idx < u64_mod
    → delta < u64_mod
    → parse_batched_header_name_v2 (record_header_name fmt idx delta) ≡ some (idx, delta)
unfolding parse_batched_header_name_v2 record_header_name
parse_batched_header_name_v2_lem fmt idx delta hi hd =
    rw
      (
        fmt.uint_decimal idx,
        fmt.uint_decimal delta,
        not_error (to_string idx) (b'-' ∷ to_string delta) (to_string-ne-nil idx)
            (to_string-All-IsDigit idx),
        rcut-append b'-' (to_string idx) (to_string delta)
            (digits-Lacks b'-' (to_string delta) (omega arith) (to_string-All-IsDigit delta)),
        stoull-to_string idx hi,
        stoull-to_string delta hd,
      )
      refl
