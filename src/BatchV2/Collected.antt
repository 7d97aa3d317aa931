-- ===== src/BatchV2/Collected.antt =====
-- The headers of a response that are about records, by their names: an entry's index and a number
-- behind the start (the first loop of `ParseAndBuildBatchedRecordsV2`).
use reduct_cpp.Common.{
  ℕ, ◌≡◌, ◌⊎◌, refl, sym, ap, ◌∙◌, true, false, none, some, List, [], ◌∷◌, ◌++◌, Bytes, Lacks,
  length, drop, ◌==◌, starts_with, rcut, rcut-append, Except, ok, thrown, Bool-cases, inl, inr,
  arith,
}
use reduct_cpp.Common.Numbers.{stoull}
use reduct_cpp.Http.{Headers}
use reduct_cpp.BatchV1.{header_error_prefix}
use reduct_cpp.BatchV2.Decode.{header_prefix, parse_batched_header_name_v2}
use reduct_cpp.BatchV2.Records.{ParsedHeader, collect_headers}

-- A name `x-reduct-<index>-<number>`, cut at its last dash, that is not one of an error.
abbrev pub IsNamed : Bytes → ℕ → ℕ → Type 0
IsNamed key idx delta =
    (idx_text : Bytes) × (delta_text : Bytes) × (key
      ≡ header_prefix ++ (idx_text ++ b'-' ∷ delta_text))
    × (starts_with header_error_prefix key ≡ false)
    × Lacks b'-' delta_text
    × (stoull idx_text ≡ ok idx)
    × (stoull delta_text ≡ ok delta)

-- What is collected of headers, in their order: the values under such names, and no other.
pub data Collects : Headers → List ParsedHeader → Type 0 where
  finished : Collects [] []
  named :
      (key value : Bytes) (idx delta : ℕ) {rest : Headers} {hs : List ParsedHeader}
      → IsNamed key idx delta
      → Collects rest hs
      → Collects
          ((key, value) ∷ rest)
          (record { entry_idx = idx; delta = delta; value = value } ∷ hs)
  skipped :
      (key value : Bytes) {rest : Headers} {hs : List ParsedHeader}
      → ((idx delta : ℕ) → ¬ IsNamed key idx delta)
      → Collects rest hs
      → Collects ((key, value) ∷ rest) hs

starts_with_inv : (p s : Bytes) → starts_with p s ≡ true → s ≡ p ++ drop (length p) s
starts_with_inv [] s h = refl
starts_with_inv (c ∷ p) [] h = cc
starts_with_inv (c ∷ p) (d ∷ s) h = elim (Bool-cases (d == c)) [
  | inl same ↦ ground (arith, starts_with_inv p s)
  | inr other ↦ absurd (ground (arith, other))
]

abbrev RParts : Bytes → Type 0
RParts s =
    ((rcut b'-' s ≡ none) × Lacks b'-' s)
    ⊎ ((x : Bytes) × (y : Bytes) × (s ≡ x ++ b'-' ∷ y) × Lacks b'-' y × (rcut b'-' s ≡ some (x, y)))

rparts_of : (s : Bytes) → RParts s
unfolding rcut
rparts_of [] = inl (refl, tt)
rparts_of (c ∷ s) = elim (rparts_of s) [
  | inl (e, lacks) ↦ elim (Bool-cases (c == b'-')) [
    | inl same ↦
        let dash : c ≡ b'-' = ground arith in
        inr ([], s, ap (λ (d : ℕ). d ∷ s) dash, lacks, rw (e, same) refl)
    | inr other ↦ inl (rw (e, other) refl, (ground arith, lacks))
  ]
  | inr (x, y, split, lacks, e) ↦ inr (c ∷ x, y, ap (◌∷◌ c) split, lacks, rw e refl)
]

parse_complete :
    (key : Bytes) (idx delta : ℕ)
    → IsNamed key idx delta
    → parse_batched_header_name_v2 key ≡ some (idx, delta)
unfolding parse_batched_header_name_v2
parse_complete key idx delta (x, y, split, plain, lacks, i, d) =
    let bare : starts_with header_error_prefix (header_prefix ++ (x ++ b'-' ∷ y)) ≡ false =
      ap (starts_with header_error_prefix) (sym split) ∙ plain in
    ap parse_batched_header_name_v2 split
    ∙ rw (bare, rcut-append b'-' x y lacks, i, d, parse_batched_header_name_v2) refl

-- By what is read of both texts.
abbrev NamedOrNone : Bytes → Type 0
NamedOrNone key =
    ((idx : ℕ) × (delta : ℕ) × IsNamed key idx delta) ⊎ (parse_batched_header_name_v2 key ≡ none)

numbers_cases :
    (key x y : Bytes) (i d : Except ℕ)
    → starts_with header_prefix key ≡ true
    → starts_with header_error_prefix key ≡ false
    → drop (length header_prefix) key ≡ x ++ b'-' ∷ y
    → Lacks b'-' y
    → rcut b'-' (drop (length header_prefix) key) ≡ some (x, y)
    → stoull x ≡ i
    → stoull y ≡ d
    → NamedOrNone key
unfolding parse_batched_header_name_v2
numbers_cases key x y thrown d start plain split lacks cuts i e =
    inr (rw (start, plain, cuts, i, parse_batched_header_name_v2) refl)
numbers_cases key x y (ok idx) thrown start plain split lacks cuts i e =
    inr (rw (start, plain, cuts, i, e, parse_batched_header_name_v2) refl)
numbers_cases key x y (ok idx) (ok delta) start plain split lacks cuts i e = inl (
  idx,
  delta,
  (
    x,
    y,
    starts_with_inv header_prefix key start ∙ ap (λ t. header_prefix ++ t) split,
    plain,
    lacks,
    i,
    e,
  ),
)

name_cases : (key : Bytes) → NamedOrNone key
unfolding parse_batched_header_name_v2
name_cases key = elim (Bool-cases (starts_with header_prefix key)) [
  | inr other ↦ inr (rw (other, parse_batched_header_name_v2) refl)
  | inl start ↦ elim (Bool-cases (starts_with header_error_prefix key)) [
    | inl error ↦ inr (rw (start, error, parse_batched_header_name_v2) refl)
    | inr plain ↦ elim (rparts_of (drop (length header_prefix) key)) [
      | inl (e, _) ↦ inr (rw (start, plain, e, parse_batched_header_name_v2) refl)
      | inr (x, y, split, lacks, e) ↦ numbers_cases key x y _ _ start plain split lacks e refl refl
    ]
  ]
]

none-ne-some : {A : Type 0} {a : A} → ¬ (none ≡ some a)
none-ne-some e = cc

pub collect_headers-Collects : (headers : Headers) → Collects headers (collect_headers headers)
unfolding collect_headers
collect_headers-Collects [] = finished
collect_headers-Collects ((key, value) ∷ rest) = elim (name_cases key) [
  | inl (idx, delta, is_named) ↦
      rw (parse_complete key idx delta is_named, collect_headers)
        (named key value idx delta is_named (collect_headers-Collects rest))
  | inr unread ↦
      rw (unread, collect_headers)
        (skipped key value
          (λ idx delta is_named. none-ne-some (sym unread ∙ parse_complete key idx delta is_named))
          (collect_headers-Collects rest))
]
