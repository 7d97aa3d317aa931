-- ===== src/HttpClient/Versions.antt =====
-- `IsCompatible` on versions of two numbers.
use reduct_cpp.Common.{
  ℕ, ◌^◌, ◌<◌, ◌≡◌, refl, false, ◌&&◌, [], ◌∷◌, ◌++◌, Bytes, All, Lacks, leb, ◌==◌, is_empty,
  getlines-append, getlines_one, ok, pos, arith,
}
use reduct_cpp.Common.Numbers.{
  to_string, IsDigit, to_string-All-IsDigit, to_string-ne-nil, stoi-to_string,
}
use reduct_cpp.HttpClient.{parse_items, parse_version, is_compatible}

-- A version as servers write it.
abbrev pub version : ℕ → ℕ → Bytes
version major minor = to_string major ++ b'.' ∷ to_string minor

digits-Lacks_dot : (s : Bytes) → All IsDigit s → Lacks b'.' s
digits-Lacks_dot [] h = tt
digits-Lacks_dot (c ∷ s) (d, h) = (omega arith, digits-Lacks_dot s h)

pub parse_version-version :
    (major minor : ℕ)
    → major < 2 ^ 31
    → minor < 2 ^ 31
    → parse_version (version major minor) ≡ ok (pos major ∷ pos minor ∷ [])
unfolding parse_version parse_items
parse_version-version major minor h k =
    rw
      (
        getlines-append b'.' (to_string major) (to_string minor)
            (digits-Lacks_dot (to_string major) (to_string-All-IsDigit major)),
        getlines_one b'.' (to_string minor)
            (digits-Lacks_dot (to_string minor) (to_string-All-IsDigit minor))
            (to_string-ne-nil minor),
        stoi-to_string major h,
        stoi-to_string minor k,
      )
      refl

is_empty-append : (s t : Bytes) (c : ℕ) → is_empty (s ++ c ∷ t) ≡ false
is_empty-append [] t c = refl
is_empty-append (d ∷ s) t c = refl

-- On versions of two numbers nothing is thrown, and a version is compatible with a least version
-- exactly if the major numbers are equal and the minor number is not below the least one.
pub is_compatible_lem :
    (major minor major' minor' : ℕ)
    → major < 2 ^ 31
    → minor < 2 ^ 31
    → major' < 2 ^ 31
    → minor' < 2 ^ 31
    → is_compatible (version major minor) (version major' minor')
      ≡ ok ((major == major') && leb minor minor')
unfolding is_compatible
is_compatible_lem major minor major' minor' h k h' k' =
    rw
      (
        is_empty-append (to_string major') (to_string minor') b'.',
        parse_version-version major minor h k,
        parse_version-version major' minor' h' k',
      )
      refl
