-- ===== src/BatchV2/Parts.antt =====
-- A header's value, cut at its first comma.
use reduct_cpp.Common.{
  ℕ, ◌≡◌, refl, ap, false, Option, none, some, [], ◌∷◌, ◌++◌, Bytes, Lacks, ◌==◌, cut, Bool-cases,
  inl, inr, arith,
}

-- A text, and what stands behind a comma after it.
abbrev pub with_rest : Bytes → Option Bytes → Bytes
with_rest front none = front
with_rest front (some rest) = front ++ b',' ∷ rest

abbrev pub cut_of : Bytes → Option Bytes → Option (Bytes × Bytes)
cut_of front none = none
cut_of front (some rest) = some (front, rest)

abbrev pub Parts : Bytes → Type 0
Parts s =
    (front : Bytes) × (rest : Option Bytes) × Lacks b',' front
    × (s ≡ with_rest front rest)
    × (cut b',' s ≡ cut_of front rest)

Parts-cons :
    (c : ℕ) (s front : Bytes) (rest : Option Bytes)
    → (c == b',') ≡ false
    → Lacks b',' front
    → s ≡ with_rest front rest
    → cut b',' s ≡ cut_of front rest
    → Parts (c ∷ s)
unfolding cut
Parts-cons c s front none other lacks e f =
    (c ∷ front, none, (ground arith, lacks), ap (◌∷◌ c) e, rw (other, f) refl)
Parts-cons c s front (some rest) other lacks e f =
    (c ∷ front, some rest, (ground arith, lacks), ap (◌∷◌ c) e, rw (other, f) refl)

pub Parts-of : (s : Bytes) → Parts s
unfolding cut
Parts-of [] = ([], none, tt, refl, refl)
Parts-of (c ∷ s) = elim (Bool-cases (c == b',')) [
  | inl same ↦
      let comma : c ≡ b',' = ground arith in
      ([], some s, tt, ap (λ (d : ℕ). d ∷ s) comma, rw same refl)
  | inr other ↦
      let (front, rest, lacks, e, f) = Parts-of s in Parts-cons c s front rest other lacks e f
]
