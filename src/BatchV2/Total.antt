-- ===== src/BatchV2/Total.antt =====
-- Reading a response over protocol v2 throws nothing, where it gives no list of label names.
use reduct_cpp.Common.{
  ℕ, zero, suc, ◌≡◌, refl, ap, ◌∙◌, Option, none, some, List, [], ◌∷◌, Bytes, get_elem?, length,
  replicate, set, is_empty, cut, Except, ok, thrown, ◌>>=◌, Bool-cases, Option-cases, Except-cases,
  inl, inr,
}
use reduct_cpp.Common.Numbers.{stoull}
use reduct_cpp.Common.Sort.{sort}
use reduct_cpp.Http.{Headers, find_header}
use reduct_cpp.Batch.{LabelMap, ReadableRecord}
use reduct_cpp.BatchV2.Decode.{
  trim, read_value, next_op, label_ops, resolve_key, parse_label_delta_ops, apply_label_delta,
}
use reduct_cpp.BatchV2.Records.{
  RecordHeader, ParsedHeader, header_labels, header_before, collect_headers, split_length,
  split_rest, base_labels, apply_raw, finish_header, parse_record_header_v2, last_at, read_headers,
  build_records_v2,
}
use reduct_cpp.BatchV2.Reads.{read_found, step_unknown, step_known}
use reduct_cpp.BatchV2.Responses.{build_records_v2_lem, label_names, flag_last, flagged}

abbrev Returns : {A : Type 0} → Except A → Type 0
Returns {A} e = (a : A) × (e ≡ ok a)

bind-Returns :
    {A B : Type 0} (e : Except A) (f : A → Except B)
    → Returns e
    → ((a : A) → Returns (f a))
    → Returns (e >>= f)
bind-Returns thrown f (a, h) g = cc
bind-Returns (ok a) f h g = g a

label_ops-Returns : (fuel : ℕ) (raw : Bytes) → Returns (label_ops fuel none raw)
unfolding label_ops resolve_key
label_ops-Returns zero raw = ([], refl)
label_ops-Returns (suc fuel) raw = elim (Option-cases (cut b'=' raw)) [
  | inl e ↦ ([], rw (e, label_ops) refl)
  | inr ((key, behind), e) ↦ elim (Option-cases (read_value behind)) [
    | inl n ↦ ([], rw (e, n, label_ops) refl)
    | inr ((value, rest), m) ↦
        let (ops, ih) = label_ops-Returns fuel (next_op rest) in
        (
          (trim key, value) ∷ ops,
          rw (e, m, label_ops) (ap (λ r. r >>= λ ops. ok ((trim key, value) ∷ ops)) ih),
        )
  ]
]

apply_raw-Returns : (raw : Option Bytes) (labels : LabelMap) → Returns (apply_raw raw labels none)
unfolding apply_label_delta parse_label_delta_ops
apply_raw-Returns none labels = (labels, refl)
apply_raw-Returns (some raw) labels =
    bind-Returns _ _ (label_ops-Returns (length raw) raw) (λ ops. (_, refl))

finish_header-Returns :
    (n : ℕ) (rest : Option Bytes) (previous : Option RecordHeader)
    → Returns (finish_header n rest previous none)
unfolding finish_header
finish_header-Returns n rest previous =
    bind-Returns _ _ (apply_raw-Returns (split_rest rest).1 (base_labels previous))
      (λ labels. (_, refl))

parse_record_header_v2-Returns :
    (raw : Bytes) (previous : Option RecordHeader)
    → Returns (parse_record_header_v2 raw previous none)
unfolding parse_record_header_v2
parse_record_header_v2-Returns raw previous = elim (Bool-cases (is_empty (split_length raw).0)) [
  | inl e ↦ (none, rw (e, parse_record_header_v2) refl)
  | inr e ↦ elim (Except-cases (stoull (split_length raw).0)) [
    | inl t ↦ (none, rw (e, t, parse_record_header_v2) refl)
    | inr (n, t) ↦
        let (o, f) = finish_header-Returns n (split_length raw).1 previous in
        (o, rw (e, t, parse_record_header_v2) f)
  ]
]

read_found-Returns :
    (entries : List Bytes) (start_ts : ℕ) (h : ParsedHeader) (hs : List ParsedHeader)
    (last : List (Option RecordHeader)) (entry : Bytes) (found : Option RecordHeader)
    → ((last : List (Option RecordHeader)) → Returns (read_headers entries start_ts none hs last))
    → Returns (read_found entries start_ts none h hs last entry (ok found))
read_found-Returns entries start_ts h hs last entry none ih = ih last
read_found-Returns entries start_ts h hs last entry (some header) ih =
    bind-Returns _ _ (ih (set last h.entry_idx (some header))) (λ rs. (_, refl))

read_headers-Returns :
    (entries : List Bytes) (start_ts : ℕ) (hs : List ParsedHeader)
    (last : List (Option RecordHeader))
    → Returns (read_headers entries start_ts none hs last)
read_headers-Returns entries start_ts [] last = unfold read_headers in ([], refl)
read_headers-Returns entries start_ts (h ∷ hs) last =
    elim (Option-cases (get_elem? entries h.entry_idx)) [
      | inl absent ↦
          let (rs, e) = read_headers-Returns entries start_ts hs last in
          (rs, step_unknown entries start_ts none h hs last absent ∙ e)
      | inr (entry, there) ↦
          let (found, p) = parse_record_header_v2-Returns h.value (last_at last h.entry_idx) in
          let (rs, e) =
            read_found-Returns entries start_ts h hs last entry found
              (read_headers-Returns entries start_ts hs) in
          (rs, step_known entries start_ts none h hs last entry (ok found) there p ∙ e)
    ]

label_names_absent :
    (headers : Headers) → find_header header_labels headers ≡ none → label_names headers ≡ none
label_names_absent headers absent = rw (absent, label_names) refl

-- A response over protocol v2 that gives no list of label names is read, whatever its other headers
-- hold: nothing is thrown.
pub build_records_v2-Returns :
    (entries : List Bytes) (start_ts : ℕ) (headers : Headers)
    → find_header header_labels headers ≡ none
    → (rs : List ReadableRecord) × (build_records_v2 entries start_ts headers ≡ ok rs)
build_records_v2-Returns entries start_ts headers absent =
    let (rs, e) =
      read_headers-Returns entries start_ts (sort header_before (collect_headers headers))
        (replicate (length entries) none) in
    (
      flag_last headers rs,
      build_records_v2_lem entries start_ts headers
          ∙ ap
              (λ names. flagged headers (
                read_headers entries start_ts names (sort header_before (collect_headers headers))
                  (replicate (length entries) none)))
              (label_names_absent headers absent)
          ∙ ap (flagged headers) e,
    )
