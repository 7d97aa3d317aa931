-- ===== src/BatchV1/Csv.antt =====
-- `parse_csv` of protocol v1, on headers as `ProcessBatchV1` writes them.
use reduct_cpp.Common.{
  ℕ, ◌<◌, ◌^◌, ◌≡◌, ◌≢◌, refl, sym, ap, ◌∙◌, true, false, none, some, List, [], ◌∷◌, ◌++◌, map,
  append_assoc, append-nil, Bytes, All, Lacks, cut-append, cut-none, starts_with, getlines,
  getlines-append, getlines-join, run, then_run, Run, done, undefined, get_elem?, drop, pos,
  All-append, arith,
}
use reduct_cpp.Common.Numbers.{to_string, to_string-All-IsDigit, IsDigit, stoll, stoll-to_string}
use reduct_cpp.Common.Table.{IsOrdered, assign_last, All-heads, All-tails, bytes_ord}
use reduct_cpp.Format.{Fmt}
use reduct_cpp.Batch.{LabelMap, Record}
use reduct_cpp.BatchV1.{
  write, format_label, format_labels, contains, CsvRow, csv_item, csv_items, csv_labels, parse_csv,
}
use reduct_cpp.BatchV1.Process.{header_value_v1}

-- A text that begins with no quote.
abbrev pub IsUnquoted : Bytes → Type 0
IsUnquoted s = starts_with (b'"' ∷ []) s ≡ false

-- A label that survives: no comma, no '=' in the key, and no quote in front of it.
abbrev pub IsPlain : Bytes × Bytes → Type 0
IsPlain label = Lacks b',' label.0 × Lacks b'=' label.0 × IsUnquoted label.0 × Lacks b',' label.1

pub csv_items_plain :
    (items rest : List Bytes)
    → All IsUnquoted rest
    → csv_items (record { items = items; escaped = [] }) rest ≡ items ++ rest
unfolding csv_items csv_item
csv_items_plain items [] h = sym (append-nil items)
csv_items_plain items (item ∷ rest) (p, h) =
    rw p (csv_items_plain (items ++ item ∷ []) rest h ∙ append_assoc items (item ∷ []) rest)

format_label_plain :
    (key value : Bytes) → Lacks b',' value → format_label (key, value) ≡ key ++ b'=' ∷ value
unfolding format_label
format_label_plain key value h = rw (cut-none b',' value h, contains) refl

csv_labels-map :
    (labels base : LabelMap)
    → All IsPlain labels
    → IsOrdered labels
    → All (λ e. All (λ l. bytes_ord.lt e.0 l.0 ≡ true) labels) base
    → csv_labels base (map format_label labels) ≡ base ++ labels
unfolding csv_labels
csv_labels-map [] base h ordered above = sym (append-nil base)
csv_labels-map ((key, value) ∷ labels) base ((_, eq, _, comma), h) (first, ordered) above =
    rw (format_label_plain key value comma, cut-append b'=' key value eq, csv_labels)
      (ap (λ m. csv_labels m (map format_label labels))
          (assign_last key value base (All-heads key value labels base above))
        ∙ csv_labels-map labels (base ++ (key, value) ∷ []) h ordered
            (All-tails (key, value) labels base above first)
        ∙ append_assoc base ((key, value) ∷ []) labels)

pub label-IsUnquoted : (key value : Bytes) → IsUnquoted key → IsUnquoted (key ++ b'=' ∷ value)
label-IsUnquoted [] value h = refl
label-IsUnquoted (c ∷ key) value h = h

label_ne_nil : (key value : Bytes) → (key ++ b'=' ∷ value) ≢ []
label_ne_nil [] value = cc
label_ne_nil (c ∷ key) value = cc

-- Each part that a label becomes.
parts :
    (labels : LabelMap)
    → All IsPlain labels
    → All (λ p. Lacks b',' p × (p ≢ [])) (map format_label labels)
parts [] h = tt
parts ((key, value) ∷ labels) ((k, _, _, v), h) = rw (format_label_plain key value v) (
  (All-append (λ c. c ≢ b',') key (b'=' ∷ value) k ((omega arith), v), label_ne_nil key value),
  parts labels h,
)

parts-All-IsUnquoted :
    (labels : LabelMap) → All IsPlain labels → All IsUnquoted (map format_label labels)
parts-All-IsUnquoted [] h = tt
parts-All-IsUnquoted ((key, value) ∷ labels) ((_, _, u, v), h) =
    rw (format_label_plain key value v)
      (label-IsUnquoted key value u, parts-All-IsUnquoted labels h)

pub digits-IsUnquoted : (s : Bytes) → All IsDigit s → IsUnquoted s
digits-IsUnquoted [] h = refl
digits-IsUnquoted (c ∷ s) (d, h) = ground arith

pub digits_bare : (s : Bytes) → All IsDigit s → Lacks b',' s
digits_bare [] h = tt
digits_bare (c ∷ s) (d, h) = (omega (arith, d), digits_bare s h)

-- What `parse_csv` makes of the items.
abbrev pub csv_row : List Bytes → Run CsvRow
csv_row items = elim (get_elem? items 0) [
  | none ↦ undefined
  | some first ↦ then_run (run (stoll first)) (λ size. elim (get_elem? items 1) [
    | none ↦ undefined
    | some content_type ↦
        done (record {
          size = size;
          content_type = content_type;
          labels = csv_labels [] (drop 2 items);
        })
  ])
]

csv_row_lem :
    (size : ℕ) (content_type : Bytes) (labels : LabelMap)
    → size < 2 ^ 63
    → All IsPlain labels
    → IsOrdered labels
    → csv_row (to_string size ∷ content_type ∷ map format_label labels)
      ≡ done (record { size = pos size; content_type = content_type; labels = labels })
csv_row_lem size content_type labels lt h ordered =
    rw (stoll-to_string size lt, csv_labels-map labels [] h ordered tt) refl

module _ (fmt : Fmt) where
  -- The items of a header.
  header_items :
      (r : Record)
      → Lacks b',' r.content_type
      → All IsPlain r.labels
      → getlines b',' (header_value_v1 fmt write r)
        ≡ to_string r.size ∷ r.content_type ∷ map format_label r.labels
  unfolding header_value_v1 format_labels
  header_items r bare h =
      rw
        (
          fmt.uint_decimal r.size,
          getlines-append b',' (to_string r.size) (r.content_type ++ b',' ∷ format_labels r.labels)
              (digits_bare (to_string r.size) (to_string-All-IsDigit r.size)),
          getlines-append b',' r.content_type (format_labels r.labels) bare,
          getlines-join b',' (map format_label r.labels) (parts r.labels h),
        )
        refl

  -- A header that is written for a record of a batch to write is read back as the record's size,
  -- its content type and its labels, if the size is below 2 ^ 63, the content type has no comma
  -- and begins with no quote, the labels are ordered by their keys as in the map, and they are
  -- labels that survive.
  pub parse_csv-header_value_v1 :
      (r : Record)
      → r.size < 2 ^ 63
      → Lacks b',' r.content_type
      → IsUnquoted r.content_type
      → IsOrdered r.labels
      → All IsPlain r.labels
      → parse_csv (header_value_v1 fmt write r)
        ≡ done (record { size = pos r.size; content_type = r.content_type; labels = r.labels })
  unfolding parse_csv
  parse_csv-header_value_v1 r lt bare unquoted ordered h =
      let items : csv_items (record { items = []; escaped = [] })
            (getlines b',' (header_value_v1 fmt write r))
          ≡ to_string r.size ∷ r.content_type ∷ map format_label r.labels =
        ap (csv_items (record { items = []; escaped = [] })) (header_items r bare h)
        ∙ csv_items_plain [] (to_string r.size ∷ r.content_type ∷ map format_label r.labels) (
          digits-IsUnquoted (to_string r.size) (to_string-All-IsDigit r.size),
          (unquoted, parts-All-IsUnquoted r.labels h),
        ) in
      ap csv_row items ∙ csv_row_lem r.size r.content_type r.labels lt h ordered
