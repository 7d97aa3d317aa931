-- ===== src/BatchV1/Quoted.antt =====
-- A label value with a comma, which `FormatLabels` quotes, in `parse_csv` of protocol v1.
use reduct_cpp.Common.{
  ◌<◌, ◌^◌, ◌≡◌, ◌≢◌, refl, ap, ◌∙◌, List, [], ◌∷◌, ◌++◌, append_assoc, Bytes, Lacks, All-append,
  cut-append, cut-none, getlines, getlines-append, getlines_one, join, done, pos, arith,
}
use reduct_cpp.Common.Numbers.{to_string, to_string-All-IsDigit, stoll-to_string}
use reduct_cpp.Common.Table.{assign, bytes_ord}
use reduct_cpp.Format.{Fmt}
use reduct_cpp.Batch.{Record}
use reduct_cpp.BatchV1.{
  write, format_label, format_labels, contains, csv_items, csv_labels, parse_csv,
}
use reduct_cpp.BatchV1.Process.{header_value_v1}
use reduct_cpp.BatchV1.Csv.{
  IsUnquoted, csv_items_plain, csv_row, label-IsUnquoted, digits-IsUnquoted, digits_bare,
}

format_label_quoted :
    (key a b : Bytes)
    → Lacks b',' a
    → format_label (key, a ++ b',' ∷ b) ≡ (key ++ b'=' ∷ b'"' ∷ a) ++ b',' ∷ (b ++ b'"' ∷ [])
unfolding format_label
format_label_quoted key a b bare =
    rw (cut-append b',' a b bare, contains) (simp (append_assoc) refl)

end-IsUnquoted : (b : Bytes) → IsUnquoted b → b ≢ [] → IsUnquoted (b ++ b'"' ∷ [])
end-IsUnquoted [] h n = absurd (n refl)
end-IsUnquoted (c ∷ b) h n = h

-- A key and the two parts of a value around its first comma, of which neither holds anything else
-- that the parser looks at.
abbrev pub IsSplit : Bytes → Bytes → Bytes → Type 0
IsSplit key a b =
    (Lacks b',' key × Lacks b'=' key × IsUnquoted key)
    × Lacks b',' a
    × (Lacks b',' b × Lacks b'=' b × IsUnquoted b × (b ≢ []))

quoted_items :
    (key a b : Bytes)
    → IsSplit key a b
    → getlines b',' (format_labels ((key, a ++ b',' ∷ b) ∷ []))
      ≡ (key ++ b'=' ∷ b'"' ∷ a) ∷ (b ++ b'"' ∷ []) ∷ []
unfolding format_labels join
quoted_items key a b ((k, _, _), l, (m, _, _, n)) =
    ap (getlines b',') (format_label_quoted key a b l)
    ∙ getlines-append b',' (key ++ b'=' ∷ b'"' ∷ a) (b ++ b'"' ∷ [])
        (All-append (λ c. c ≢ b',') key (b'=' ∷ b'"' ∷ a) k (omega arith, (omega arith, l)))
    ∙ ap (◌∷◌ (key ++ b'=' ∷ b'"' ∷ a)) (
        getlines_one b',' (b ++ b'"' ∷ [])
          (All-append (λ c. c ≢ b',') b (b'"' ∷ []) m (omega arith, tt)) (append-ne-nil b))
  where
    append-ne-nil : (s : Bytes) → (s ++ b'"' ∷ []) ≢ []
    append-ne-nil [] = cc
    append-ne-nil (c ∷ s) = cc

quoted_labels :
    (key a b : Bytes)
    → IsSplit key a b
    → csv_labels [] ((key ++ b'=' ∷ b'"' ∷ a) ∷ (b ++ b'"' ∷ []) ∷ []) ≡ (key, b'"' ∷ a) ∷ []
unfolding csv_labels assign
quoted_labels key a b ((_, k, _), _, (_, m, _, _)) =
    rw
      (
        cut-append b'=' key (b'"' ∷ a) k,
        cut-none b'=' (b ++ b'"' ∷ [])
            (All-append (λ c. c ≢ b'=') b (b'"' ∷ []) m (omega arith, tt)),
        csv_labels,
      )
      refl

module _ (fmt : Fmt) where
  quoted_header :
      (r : Record) (key a b : Bytes)
      → Lacks b',' r.content_type
      → IsSplit key a b
      → r.labels ≡ (key, a ++ b',' ∷ b) ∷ []
      → getlines b',' (header_value_v1 fmt write r)
        ≡ to_string r.size ∷ r.content_type ∷ (key ++ b'=' ∷ b'"' ∷ a) ∷ (b ++ b'"' ∷ []) ∷ []
  unfolding header_value_v1
  quoted_header r key a b bare split e =
      rw
        (
          fmt.uint_decimal r.size,
          getlines-append b',' (to_string r.size) (r.content_type ++ b',' ∷ format_labels r.labels)
              (digits_bare (to_string r.size) (to_string-All-IsDigit r.size)),
          getlines-append b',' r.content_type (format_labels r.labels) bare,
        )
        (ap
            (λ (ls : List (Bytes × Bytes)).
              to_string r.size ∷ r.content_type ∷ getlines b',' (format_labels ls))
            e
          ∙ ap (λ (rest : List Bytes). to_string r.size ∷ r.content_type ∷ rest)
              (quoted_items key a b split))

  csv_row-quoted :
      (r : Record) (key a b : Bytes)
      → r.size < 2 ^ 63
      → IsSplit key a b
      → csv_row
          (to_string r.size ∷ r.content_type ∷ (key ++ b'=' ∷ b'"' ∷ a) ∷ (b ++ b'"' ∷ []) ∷ [])
        ≡ done (record {
          size = pos r.size;
          content_type = r.content_type;
          labels = (key, b'"' ∷ a) ∷ [];
        })
  csv_row-quoted r key a b lt split =
      rw (stoll-to_string r.size lt, quoted_labels key a b split) refl

  -- A label whose value holds one comma is not read back: the value that is read is a quote and
  -- what stands in front of the comma. This holds for each record with this one label, of a size
  -- below 2 ^ 63, where neither the key nor the value has another comma, the key and the end of
  -- the value have no '=', neither these nor the content type begin with a quote, the content type
  -- has no comma, and the value goes on behind its comma.
  pub parse_csv_quoted :
      (r : Record) (key a b : Bytes)
      → r.size < 2 ^ 63
      → Lacks b',' r.content_type
      → IsUnquoted r.content_type
      → IsSplit key a b
      → r.labels ≡ (key, a ++ b',' ∷ b) ∷ []
      → parse_csv (header_value_v1 fmt write r)
        ≡ done (record {
          size = pos r.size;
          content_type = r.content_type;
          labels = (key, b'"' ∷ a) ∷ [];
        })
  unfolding parse_csv
  parse_csv_quoted r key a b lt bare unquoted ((k, p, u), l, (m, q, v, n)) e =
      let split : IsSplit key a b = ((k, p, u), l, (m, q, v, n)) in
      ap (λ items. csv_row (csv_items (record { items = []; escaped = [] }) items))
        (quoted_header r key a b bare split e)
      ∙ ap csv_row (
          csv_items_plain []
            (to_string r.size ∷ r.content_type ∷ (key ++ b'=' ∷ b'"' ∷ a) ∷ (b ++ b'"' ∷ []) ∷ [])
            (
              digits-IsUnquoted (to_string r.size) (to_string-All-IsDigit r.size),
              (unquoted, (label-IsUnquoted key (b'"' ∷ a) u, (end-IsUnquoted b v n, tt))),
            ))
      ∙ csv_row-quoted r key a b lt split
