-- ===== src/BatchV2/Said.antt =====
-- What the value of a record's header says: a length, a content type and labels between its first
-- two commas (`ParseRecordHeaderV2`).
use reduct_cpp.Common.{
  ℕ, ◌≡◌, ◌≢◌, ◌⊎◌, refl, sym, ap, ◌∙◌, Bool, true, false, Option, none, some, List, [], Bytes,
  Lacks, is_empty, cut, if◌then◌else◌, Except, ok, thrown, ◌>>=◌, inl, inr,
}
use reduct_cpp.Common.Numbers.{stoull}
use reduct_cpp.Batch.{LabelMap}
use reduct_cpp.BatchV2.Parts.{with_rest, cut_of, Parts-of}
use reduct_cpp.BatchV2.Decode.{trim}
use reduct_cpp.BatchV2.Records.{
  RecordHeader, split_rest, split_length, default_type, base_labels, apply_raw, finish_header,
  parse_record_header_v2,
}

-- The content type and the labels behind a length.
abbrev pub RestIs : Option Bytes → Bytes → Option Bytes → Type 0
RestIs none type_text labels_text = (type_text ≡ []) × (labels_text ≡ none)
RestIs (some rest) type_text labels_text =
    Lacks b',' type_text × (rest ≡ with_rest type_text labels_text)

split_length_lem :
    (raw front : Bytes) (rest : Option Bytes)
    → raw ≡ with_rest front rest
    → cut b',' raw ≡ cut_of front rest
    → split_length raw ≡ (trim front, rest)
unfolding split_length
split_length_lem raw front none e f = rw (f, split_length) (ap (λ s. (trim s, none)) e)
split_length_lem raw front (some rest) e f = rw (f, split_length) refl

split_rest-cut :
    (text front : Bytes) (rest : Option Bytes)
    → text ≡ with_rest front rest
    → cut b',' text ≡ cut_of front rest
    → split_rest (some text) ≡ (trim front, rest)
unfolding split_rest
split_rest-cut text front none e f = rw (f, split_rest) (ap (λ s. (trim s, none)) e)
split_rest-cut text front (some rest) e f = rw (f, split_rest) refl

split_rest-RestIs :
    (o : Option Bytes)
    → (type_text : Bytes) × (labels_text : Option Bytes) × RestIs o type_text labels_text
      × (split_rest o ≡ (trim type_text, labels_text))
unfolding split_rest trim
split_rest-RestIs none = ([], none, (refl, refl), refl)
split_rest-RestIs (some text) =
    let (front, rest, lacks, e, f) = Parts-of text in
    (front, rest, (lacks, e), split_rest-cut text front rest e f)

-- A value that says no length.
abbrev pub IsUnsaid : Bytes → Type 0
IsUnsaid raw =
    (length_text : Bytes) × (rest : Option Bytes) × (raw ≡ with_rest length_text rest)
    × Lacks b',' length_text
    × ((is_empty (trim length_text) ≡ true) ⊎ (stoull (trim length_text) ≡ thrown))

module _ (previous : Option RecordHeader) (names : Option (List Bytes)) where
  -- A value says a header, against the one before: the length in front of the first comma, the
  -- content type in front of the second one, or that before where there is none, and the labels
  -- before, changed by what stands behind the second comma. Spaces around a part do not count.
  abbrev pub IsSaid : Bytes → RecordHeader → Type 0
  IsSaid raw header =
      (length_text : Bytes) × (rest : Option Bytes) × (type_text : Bytes) × (labels_text : Option
        Bytes)
      × (raw ≡ with_rest length_text rest)
      × Lacks b',' length_text
      × RestIs rest type_text labels_text
      × (stoull (trim length_text) ≡ ok header.content_length)
      × (header.content_type
          ≡ (if is_empty (trim type_text) then default_type previous else trim type_text))
      × (apply_raw labels_text (base_labels previous) names ≡ ok header.labels)

  abbrev header_with : ℕ → Bytes → LabelMap → RecordHeader
  header_with n type_text labels = record {
    content_length = n;
    content_type = if is_empty type_text then default_type previous else type_text;
    labels = labels;
  }

  -- What is read behind a length.
  abbrev read_behind : ℕ → Bytes → Except LabelMap → Except (Option RecordHeader)
  read_behind n type_text applied = applied >>= λ labels. ok (some (header_with n type_text labels))

  finish_header_lem :
      (n : ℕ) (rest : Option Bytes) (type_text : Bytes) (labels_text : Option Bytes)
      → split_rest rest ≡ (type_text, labels_text)
      → finish_header n rest previous names
        ≡ read_behind n type_text (apply_raw labels_text (base_labels previous) names)
  unfolding finish_header
  finish_header_lem n rest type_text labels_text e =
      ap
        (λ (p : Bytes × Option Bytes).
          read_behind n p.0 (apply_raw p.1 (base_labels previous) names))
        e

  abbrev header_or : RecordHeader → Except (Option RecordHeader) → RecordHeader
  header_or h (ok (some g)) = g
  header_or h (ok none) = h
  header_or h thrown = h

  read_behind_inv :
      (n : ℕ) (type_text : Bytes) (applied : Except LabelMap) (header : RecordHeader)
      → read_behind n type_text applied ≡ ok (some header)
      → (labels : LabelMap) × (applied ≡ ok labels) × (header_with n type_text labels ≡ header)
  read_behind_inv n type_text thrown header e = cc
  read_behind_inv n type_text (ok labels) header e = (labels, refl, ap (header_or header) e)

  -- The whole, by the length's text.
  abbrev read_length : Option Bytes → Bool → Except ℕ → Except (Option RecordHeader)
  read_length rest true n = ok none
  read_length rest false thrown = ok none
  read_length rest false (ok n) = finish_header n rest previous names

  parse_lem :
      (raw length_text : Bytes) (rest : Option Bytes) (bare : Bool) (n : Except ℕ)
      → split_length raw ≡ (length_text, rest)
      → is_empty length_text ≡ bare
      → stoull length_text ≡ n
      → parse_record_header_v2 raw previous names ≡ read_length rest bare n
  unfolding parse_record_header_v2
  parse_lem raw length_text rest true n e b s = rw (e, b, parse_record_header_v2) refl
  parse_lem raw length_text rest false thrown e b s = rw (e, b, s, parse_record_header_v2) refl
  parse_lem raw length_text rest false (ok n) e b s =
      rw (e, b, s, parse_record_header_v2)
        (ap (λ (p : Bytes × Option Bytes). finish_header n p.1 previous names) e)

  read_length-some :
      (rest : Option Bytes) (bare : Bool) (n : Except ℕ) (header : RecordHeader)
      → read_length rest bare n ≡ ok (some header)
      → (m : ℕ) × (n ≡ ok m) × (finish_header m rest previous names ≡ ok (some header))
  read_length-some rest true n header e = cc
  read_length-some rest false thrown header e = cc
  read_length-some rest false (ok n) header e = (n, refl, e)

  read_behind-ne-none :
      (n : ℕ) (type_text : Bytes) (applied : Except LabelMap)
      → read_behind n type_text applied ≢ ok none
  read_behind-ne-none n type_text thrown e = cc
  read_behind-ne-none n type_text (ok labels) e = cc

  read_length-none :
      (rest : Option Bytes) (bare : Bool) (n : Except ℕ)
      → read_length rest bare n ≡ ok none
      → (bare ≡ true) ⊎ (n ≡ thrown)
  read_length-none rest true n e = inl refl
  read_length-none rest false thrown e = inr refl
  read_length-none rest false (ok n) e =
      let (type_text, labels_text, _, s) = split_rest-RestIs rest in
      absurd (
        read_behind-ne-none n (trim type_text) _
          (sym (finish_header_lem n rest (trim type_text) labels_text s) ∙ e))

  pub parse_record_header_v2-IsSaid :
      (raw : Bytes) (header : RecordHeader)
      → parse_record_header_v2 raw previous names ≡ ok (some header)
      → IsSaid raw header
  parse_record_header_v2-IsSaid raw header e =
      let (front, rest, lacks, whole, f) = Parts-of raw in
      let len = split_length_lem raw front rest whole f in
      let (type_text, labels_text, is_rest, s) = split_rest-RestIs rest in
      let (n, number, finished) =
        read_length-some rest _ _ header
          (sym (parse_lem raw (trim front) rest _ _ len refl refl) ∙ e) in
      let (labels, applied, same) =
        read_behind_inv n (trim type_text) _ header
          (sym (finish_header_lem n rest (trim type_text) labels_text s) ∙ finished) in
      (
        front,
        rest,
        type_text,
        labels_text,
        whole,
        lacks,
        is_rest,
        number ∙ ap (λ (h : RecordHeader). ok h.content_length) same,
        sym (ap (λ (h : RecordHeader). h.content_type) same),
        applied ∙ ap (λ (h : RecordHeader). ok h.labels) same,
      )

  pub parse_record_header_v2-IsUnsaid :
      (raw : Bytes) → parse_record_header_v2 raw previous names ≡ ok none → IsUnsaid raw
  parse_record_header_v2-IsUnsaid raw e =
      let (front, rest, lacks, whole, f) = Parts-of raw in
      let len = split_length_lem raw front rest whole f in
      (
        front,
        rest,
        whole,
        lacks,
        read_length-none rest _ _ (sym (parse_lem raw (trim front) rest _ _ len refl refl) ∙ e),
      )
