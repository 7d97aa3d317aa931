-- ===== src/BatchV2/Labels.antt =====
-- Labels that `FormatLabels` wrote, read by `ParseLabelDeltaOps`.
use reduct_cpp.Common.{
  ℕ, zero, suc, ◌≤◌, ◌<◌, ◌≡◌, ◌≢◌, refl, sym, ap, ◌∙◌, false, Option, none, some, List, [], ◌∷◌,
  ◌++◌, map, append_assoc, append-nil, Bytes, All, Lacks, length, length-append, ◌==◌, is_space,
  cut, cut-append, cut-none, join, if◌then◌else◌, ok, ◌>>=◌, Bool-cases, Option-cases, ==_iff, inl,
  inr, arith,
}
use reduct_cpp.BatchV1.{contains, format_label, format_labels}
use reduct_cpp.BatchV2.Decode.{
  LabelOp, trim, read_value, skip_spaces, next_op, label_ops, resolve_key, parse_label_delta_ops,
}

-- The first character is no white space.
abbrev pub StartsWithText : Bytes → Type 0
StartsWithText [] = Unit
StartsWithText (c ∷ s) = is_space c ≡ false

-- A key that survives: no '=', and no blank at its ends.
abbrev pub IsKey : Bytes → Type 0
IsKey key = Lacks b'=' key × (trim key ≡ key) × StartsWithText key

-- A value that survives: no quote, not empty, and no blank at its ends. It may have commas.
abbrev pub IsValue : Bytes → Type 0
IsValue value = Lacks b'"' value × (trim value ≡ value) × (value ≢ [])

abbrev pub IsLabel : Bytes × Bytes → Type 0
IsLabel label = IsKey label.0 × IsValue label.1

-- The operation that sets a label.
abbrev pub setting : Bytes × Bytes → LabelOp
setting label = (label.0, some label.1)

contains-Lacks : (b : ℕ) (s : Bytes) → contains b s ≡ false → Lacks b s
unfolding cut
contains-Lacks b [] h = tt
contains-Lacks b (c ∷ s) h = elim (Bool-cases (c == b)) [
  | inl same ↦ cc (rw (same, cut, contains) at h)
  | inr other ↦ elim (Option-cases (cut b s)) [
    | inl absent ↦
        (λ e. cc (other, (==_iff c b).1 e), contains-Lacks b s (rw (absent, contains) refl))
    | inr (p, found) ↦ cc (rw (other, found, cut, contains) at h)
  ]
]

-- A value as it is written.
abbrev written : Bytes → Bytes
written value = if contains b',' value then b'"' ∷ (value ++ b'"' ∷ []) else value

-- What follows a value: nothing, or a comma and more.
abbrev behind : Option Bytes → Bytes
behind none = []
behind (some more) = b',' ∷ more

read_value_quoted :
    (value tail : Bytes)
    → Lacks b'"' value
    → read_value ((b'"' ∷ (value ++ b'"' ∷ [])) ++ tail) ≡ some (some value, tail)
unfolding read_value
read_value_quoted value tail lacks =
    rw (append_assoc value (b'"' ∷ []) tail, cut-append b'"' value tail lacks) refl

read_value_bare :
    (value : Bytes) (more : Option Bytes)
    → IsValue value
    → Lacks b',' value
    → read_value (value ++ behind more) ≡ some (some value, behind more)
unfolding read_value
read_value_bare [] more (_, _, ne) lacks = absurd (ne refl)
read_value_bare (c ∷ s) none ((nq, _), t, _) lacks =
    let quote : (c == b'"') ≡ false = ground (arith, nq) in
    ap read_value (append-nil (c ∷ s)) ∙ rw (quote, cut-none b',' (c ∷ s) lacks, t, read_value) refl
read_value_bare (c ∷ s) (some m) ((nq, _), t, _) lacks =
    let quote : (c == b'"') ≡ false = ground (arith, nq) in
    rw (quote, cut-append b',' (c ∷ s) m lacks, t) refl

-- A value is read up to what follows it.
read_value-written :
    (value : Bytes) (more : Option Bytes)
    → IsValue value
    → read_value (written value ++ behind more) ≡ some (some value, behind more)
read_value-written value more h = elim (Bool-cases (contains b',' value)) [
  | inl commas ↦ rw commas (read_value_quoted value (behind more) h.0)
  | inr bare ↦ rw bare (read_value_bare value more h (contains-Lacks b',' value bare))
]

-- A label as it is written, with what follows it.
label_text : Bytes × Bytes → Bytes → Bytes
label_text (key, value) rest = key ++ (b'=' ∷ (written value ++ rest))

-- The white space before an operation ends at its key.
skip_spaces-label :
    (label : Bytes × Bytes) (rest : Bytes)
    → IsKey label.0
    → skip_spaces (label_text label rest) ≡ label_text label rest
unfolding skip_spaces label_text
skip_spaces-label ([], value) rest h = refl
skip_spaces-label (c ∷ key, value) rest (_, _, text) = rw text refl

label_ops-label :
    (fuel : ℕ) (label : Bytes × Bytes) (more : Option Bytes)
    → IsLabel label
    → label_ops (suc fuel) none (label_text label (behind more))
      ≡ (label_ops fuel none (next_op (behind more)) >>= λ ops. ok (setting label ∷ ops))
unfolding label_ops label_text resolve_key
label_ops-label fuel (key, value) more ((lacks, t, _), v) =
    rw
      (
        cut-append b'=' key (written value ++ behind more) lacks,
        t,
        read_value-written value more v,
        label_ops,
      )
      refl

-- What follows the first of some labels.
more_labels : List (Bytes × Bytes) → Option Bytes
more_labels [] = none
more_labels (label ∷ labels) = some (format_labels (label ∷ labels))

format_label-append :
    (label : Bytes × Bytes) (rest : Bytes) → format_label label ++ rest ≡ label_text label rest
unfolding format_label label_text
format_label-append (key, value) rest = append_assoc key (b'=' ∷ written value) rest

format_labels-label :
    (label : Bytes × Bytes) (labels : List (Bytes × Bytes))
    → format_labels (label ∷ labels) ≡ label_text label (behind (more_labels labels))
unfolding format_labels more_labels join
format_labels-label label [] = sym (append-nil (format_label label)) ∙ format_label-append label []
format_labels-label label (next ∷ labels) =
    format_label-append label (b',' ∷ format_labels (next ∷ labels))

next_op-labels :
    (labels : List (Bytes × Bytes))
    → All IsLabel labels
    → next_op (behind (more_labels labels)) ≡ format_labels labels
unfolding next_op more_labels
next_op-labels [] h = unfold format_labels join in refl
next_op-labels (label ∷ labels) ((k, _), h) =
    ap skip_spaces (format_labels-label label labels)
    ∙ skip_spaces-label label (behind (more_labels labels)) k
    ∙ sym (format_labels-label label labels)

-- Each label is read in one round.
label_ops-format_labels :
    (fuel : ℕ) (labels : List (Bytes × Bytes))
    → All IsLabel labels
    → length labels ≤ fuel
    → label_ops fuel none (format_labels labels) ≡ ok (map setting labels)
label_ops-format_labels zero [] h enough = unfold label_ops in refl
label_ops-format_labels (suc fuel) [] h enough = unfold label_ops format_labels join cut in refl
label_ops-format_labels zero (label ∷ labels) h enough = absurd (omega arith)
label_ops-format_labels (suc fuel) (label ∷ labels) (l, h) enough =
    ap (label_ops (suc fuel) none) (format_labels-label label labels)
    ∙ label_ops-label fuel label (more_labels labels) l
    ∙ ap (λ raw. label_ops fuel none raw >>= λ ops. ok (setting label ∷ ops))
        (next_op-labels labels h)
    ∙ ap (λ r. r >>= λ ops. ok (setting label ∷ ops))
        (label_ops-format_labels fuel labels h (omega arith))

length-label_text :
    (label : Bytes × Bytes) (rest : Bytes) → length rest < length (label_text label rest)
unfolding label_text
length-label_text (key, value) rest =
    omega (
      arith,
      length-append key (b'=' ∷ (written value ++ rest)),
      length-append (written value) rest,
    )

-- A text of labels is at least as long as their number.
pub length-format_labels :
    (labels : List (Bytes × Bytes)) → length labels ≤ length (format_labels labels)
unfolding more_labels
length-format_labels [] = omega arith
length-format_labels (label ∷ []) =
    omega (arith, ap length (format_labels-label label []), length-label_text label [])
length-format_labels (label ∷ next ∷ labels) = omega (
  arith,
  ap length (format_labels-label label (next ∷ labels)),
  length-label_text label (b',' ∷ format_labels (next ∷ labels)),
  length-format_labels (next ∷ labels),
)

-- Labels that were written without a list of names are read back one by one, values with commas
-- too.
pub parse_label_delta_ops-format_labels :
    (labels : List (Bytes × Bytes))
    → All IsLabel labels
    → parse_label_delta_ops (format_labels labels) none ≡ ok (map setting labels)
unfolding parse_label_delta_ops
parse_label_delta_ops-format_labels labels h =
    label_ops-format_labels (length (format_labels labels)) labels h (length-format_labels labels)
