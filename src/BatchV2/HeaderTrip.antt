-- ===== src/BatchV2/HeaderTrip.antt =====
-- A record's header that a client wrote, read as the header of a record.
use reduct_cpp.Common.{
  ℕ, ◌<◌, ◌≤◌, length, join, ◌≡◌, refl, sym, ap, ◌∙◌, true, false, Option, none, some, [], ◌∷◌,
  ◌++◌, map, append_assoc, append-nil, Bytes, codes, All, Lacks, is_empty, cut-append, cut-none,
  if◌then◌else◌, ok, Bool-cases, inl, inr, arith,
}
use reduct_cpp.Common.Numbers.{
  u64_mod, to_string, IsDigit, to_string-All-IsDigit, to_string-ne-nil, stoull-to_string,
}
use reduct_cpp.Common.Table.{IsOrdered, assign_last, All-heads, All-tails, bytes_ord}
use reduct_cpp.Format.{Fmt}
use reduct_cpp.Batch.{LabelMap, Record}
use reduct_cpp.BatchV1.{write, format_labels}
use reduct_cpp.BatchV2.Decode.{trim, apply_ops, apply_label_delta}
use reduct_cpp.BatchV2.Digits.{IsToken}
use reduct_cpp.BatchV2.Names.{trim-IsToken}
use reduct_cpp.BatchV2.Labels.{
  IsLabel, setting, length-format_labels, parse_label_delta_ops-format_labels,
}
use reduct_cpp.BatchV2.Records.{
  RecordHeader, split_length, split_rest, finish_header, parse_record_header_v2,
}
use reduct_cpp.BatchV2.Build.{build_header_value_v2}

-- Setting labels whose keys rise, behind smaller ones, appends them.
apply_ops-setting :
    (labels base : LabelMap)
    → IsOrdered labels
    → All (λ e. All (λ l. bytes_ord.lt e.0 l.0 ≡ true) labels) base
    → apply_ops (map setting labels) base ≡ base ++ labels
unfolding apply_ops
apply_ops-setting [] base ordered above = sym (append-nil base)
apply_ops-setting ((key, value) ∷ labels) base (first, ordered) above =
    ap (apply_ops (map setting labels))
      (assign_last key value base (All-heads key value labels base above))
    ∙ apply_ops-setting labels (base ++ (key, value) ∷ []) ordered
        (All-tails (key, value) labels base above first)
    ∙ append_assoc base ((key, value) ∷ []) labels

apply_label_delta-format_labels :
    (labels : LabelMap)
    → IsOrdered labels
    → All IsLabel labels
    → apply_label_delta (format_labels labels) [] none ≡ ok labels
unfolding apply_label_delta
apply_label_delta-format_labels labels ordered h =
    rw (parse_label_delta_ops-format_labels labels h)
      (ap ok (apply_ops-setting labels [] ordered tt))

IsToken-digit : (c : ℕ) → IsDigit c → IsToken c
IsToken-digit c h = ground (arith, h)

digits-IsToken : (s : Bytes) → All IsDigit s → All IsToken s
digits-IsToken [] h = tt
digits-IsToken (c ∷ s) (d, h) = (IsToken-digit c d, digits-IsToken s h)

digits-Lacks : (s : Bytes) → All IsDigit s → Lacks b',' s
digits-Lacks [] h = tt
digits-Lacks (c ∷ s) (d, h) = (omega (arith, d), digits-Lacks s h)

trim-to_string : (n : ℕ) → trim (to_string n) ≡ to_string n
trim-to_string n =
    trim-IsToken (to_string n) (digits-IsToken (to_string n) (to_string-All-IsDigit n))

is_empty-to_string : (n : ℕ) → is_empty (to_string n) ≡ false
is_empty-to_string n = elim (Bool-cases (is_empty (to_string n))) [
  | inl e ↦ absurd (to_string-ne-nil n (ground arith))
  | inr e ↦ e
]

split_length-to_string :
    (n : ℕ) (rest : Bytes) → split_length (to_string n ++ b',' ∷ rest) ≡ (to_string n, some rest)
unfolding split_length
split_length-to_string n rest =
    rw
      (
        cut-append b',' (to_string n) rest (digits-Lacks (to_string n) (to_string-All-IsDigit n)),
        split_length,
      )
      (ap (λ t. (t, some rest)) (trim-to_string n))

-- A header of a length and more is read from the more.
parse_record_header_v2-length :
    (n : ℕ) (rest : Bytes)
    → n < u64_mod
    → parse_record_header_v2 (to_string n ++ b',' ∷ rest) none none
      ≡ finish_header n (some rest) none none
unfolding parse_record_header_v2
parse_record_header_v2-length n rest lt =
    rw (split_length-to_string n rest, parse_record_header_v2)
      (rw (is_empty-to_string n, stoull-to_string n lt)
        (ap (λ (p : Bytes × Option Bytes). finish_header n p.1 none none)
          (split_length-to_string n rest)))

-- The content type that is read: an empty one is the default.
abbrev pub shown_type : Bytes → Bytes
shown_type content_type =
    if is_empty content_type then codes "application/octet-stream" else content_type

split_rest_bare :
    (content_type : Bytes)
    → Lacks b',' content_type
    → trim content_type ≡ content_type
    → split_rest (some content_type) ≡ (content_type, none)
unfolding split_rest
split_rest_bare content_type lacks t =
    rw (cut-none b',' content_type lacks, split_rest) (ap (λ c. (c, none)) t)

split_rest_labels :
    (content_type raw : Bytes)
    → Lacks b',' content_type
    → trim content_type ≡ content_type
    → split_rest (some (content_type ++ b',' ∷ raw)) ≡ (content_type, some raw)
unfolding split_rest
split_rest_labels content_type raw lacks t =
    rw (cut-append b',' content_type raw lacks, split_rest) (ap (λ c. (c, some raw)) t)

format_labels_nil : format_labels [] ≡ []
unfolding format_labels join
format_labels_nil = refl

is_empty-format_labels :
    (label : Bytes × Bytes) (labels : LabelMap) → is_empty (format_labels (label ∷ labels)) ≡ false
is_empty-format_labels label labels =
    not_empty (format_labels (label ∷ labels)) (length-format_labels (label ∷ labels))
  where
    not_empty : (s : Bytes) → length (label ∷ labels) ≤ length s → is_empty s ≡ false
    not_empty [] h = absurd (omega (arith, h))
    not_empty (c ∷ s) h = refl

-- The header that is read from what a record wrote.
abbrev pub read_back : Record → RecordHeader
read_back r = record {
  content_length = r.size;
  content_type = shown_type r.content_type;
  labels = r.labels;
}

module _ (fmt : Fmt) where
  read_header :
      (size : ℕ) (content_type : Bytes) (labels : LabelMap) (value : Bytes)
      → size < u64_mod
      → Lacks b',' content_type
      → trim content_type ≡ content_type
      → IsOrdered labels
      → All IsLabel labels
      → value ≡ (
          if is_empty (format_labels labels)
          then to_string size ++ b',' ∷ content_type
          else to_string size ++ b',' ∷ (content_type ++ b',' ∷ format_labels labels))
      → parse_record_header_v2 value none none
        ≡ ok (
            some (record {
              content_length = size;
              content_type = shown_type content_type;
              labels = labels;
            }))
  unfolding finish_header
  read_header size content_type [] value lt lacks t ordered h e =
      ap (λ v. parse_record_header_v2 v none none) (e ∙ rw format_labels_nil refl)
      ∙ parse_record_header_v2-length size content_type lt
      ∙ rw (split_rest_bare content_type lacks t) refl
  read_header size content_type (label ∷ labels) value lt lacks t ordered h e =
      ap (λ v. parse_record_header_v2 v none none)
        (e ∙ rw (is_empty-format_labels label labels) refl)
      ∙ parse_record_header_v2-length size (content_type ++ b',' ∷ format_labels (label ∷ labels))
          lt
      ∙ rw
          (
            split_rest_labels content_type (format_labels (label ∷ labels)) lacks t,
            apply_label_delta-format_labels (label ∷ labels) ordered h,
          )
          refl

  -- A header that is written for a record of a batch to write is read back as the record's size,
  -- its content type (an empty one as the default) and its labels, if the size has 64 bits, the
  -- content type no comma and no blanks at its ends, and the labels are labels that survive.
  pub parse-build_header_value_v2 :
      (r : Record)
      → r.size < u64_mod
      → Lacks b',' r.content_type
      → trim r.content_type ≡ r.content_type
      → IsOrdered r.labels
      → All IsLabel r.labels
      → parse_record_header_v2 (build_header_value_v2 fmt r write) none none
        ≡ ok (some (read_back r))
  unfolding build_header_value_v2
  parse-build_header_value_v2 r lt lacks t ordered h =
      read_header r.size r.content_type r.labels (build_header_value_v2 fmt r write) lt lacks t
        ordered h (rw (fmt.uint_decimal r.size) refl)
