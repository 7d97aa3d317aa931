-- ===== src/Time/Plain.antt =====
-- A calendar for examples, whose text of a time is the number of its seconds.
use reduct_cpp.Common.{
  ℕ, ◌<◌, ◌≡◌, refl, ℤ, pos, negsuc, Bytes, Lacks, some, All, [], ◌∷◌, to_option, arith,
}
use reduct_cpp.Common.Numbers.{to_string, stoll, stoll-to_string, IsDigit, to_string-All-IsDigit}
use reduct_cpp.Time.{Clock, year_10000}

abbrev shown : ℤ → Bytes
shown (pos n) = to_string n
shown (negsuc n) = []

digits-Lacks_dot : (s : Bytes) → All IsDigit s → Lacks b'.' s
digits-Lacks_dot [] h = tt
digits-Lacks_dot (c ∷ s) (d, h) = (omega (arith, d), digits-Lacks_dot s h)

pub shown_back : (t : ℕ) → t < year_10000 → to_option (stoll (shown (pos t))) ≡ some (pos t)
shown_back t h = rw (stoll-to_string t (omega (arith, h))) refl

pub shown-Lacks : (t : ℕ) → t < year_10000 → Lacks b'.' (shown (pos t))
shown-Lacks t h = digits-Lacks_dot (to_string t) (to_string-All-IsDigit t)

abbrev pub plain_clock : Clock
plain_clock = record {
  Tm = ℤ;
  get_time = λ s. to_option (stoll s);
  put_time = shown;
  timegm = λ t. t;
  gmtime = λ t. t;
  timegm-gmtime = λ t h. refl;
  get_time-put_time = shown_back;
  put_time-Lacks = shown-Lacks;
}
