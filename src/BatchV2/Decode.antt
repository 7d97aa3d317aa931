-- ===== src/BatchV2/Decode.antt =====
-- The parsers of protocol v2: names, lists of names, header names, label deltas and header values.
use mathlib.Core.Option
use reduct_cpp.Common.{
  ℕ, zero, suc, ◌-◌, ◌%◌, Bool, true, false, not, ◌&&◌, ◌||◌, Option, none, some, List, [], ◌∷◌,
  ◌++◌, Bytes, codes, length, get_elem?, drop, ◌==◌, is_empty, is_blank, is_space, is_digit,
  is_alnum, all, starts_with, cut, rcut, getlines, if◌then◌else◌, Except, ok, thrown, ◌>>=◌,
  to_option, ℤ, pos, negsuc,
}
use reduct_cpp.Common.Numbers.{stoull, stoi}
use reduct_cpp.Common.Table.{assign, erase, bytes_ord}
use reduct_cpp.Format.{Fmt}
use reduct_cpp.Batch.{LabelMap}
use reduct_cpp.BatchV1.{header_error_prefix}

abbrev pub header_prefix : Bytes
header_prefix = codes "x-reduct-"

-- The characters that `EncodeEntryName` leaves as they are.
abbrev pub is_plain : ℕ → Bool
is_plain ch =
    is_alnum ch
    || ch == b'!'
    || ch == b'#'
    || ch == b'$'
    || ch == b'%'
    || ch == b'&'
    || ch == 39
    || ch == b'*'
    || ch == b'+'
    || ch == b'-'
    || ch == b'.'
    || ch == b'^'
    || ch == b'_'
    || ch == b'`'
    || ch == b'|'
    || ch == b'~'

-- `EncodeEntryName`
unfoldable pub encode_entry_name : Fmt → Bytes → Bytes
encode_entry_name fmt [] = []
encode_entry_name fmt (ch ∷ entry) =
    (if is_plain ch then ch ∷ [] else b'%' ∷ fmt.hex2 ch) ++ encode_entry_name fmt entry

-- `value.substr(value.find_first_not_of(" \t"))`
unfoldable pub trim_front : Bytes → Bytes
trim_front [] = []
trim_front (c ∷ s) = if is_blank c then trim_front s else c ∷ s

-- The same from the end, by `find_last_not_of`.
unfoldable pub trim_back : Bytes → Bytes
trim_back [] = []
trim_back (c ∷ s) = let rest = trim_back s in if is_blank c && is_empty rest then [] else c ∷ rest

-- `Trim`
unfoldable pub trim : Bytes → Bytes
unfolding trim_front trim_back
trim value = trim_back (trim_front value)

-- `static_cast<char>` of an `int`, as the byte that is stored.
abbrev pub to_char : ℤ → ℕ
to_char (pos n) = n % 256
to_char (negsuc n) = 255 - n % 256

-- `DecodeEntryName`: two characters have to follow each '%'.
unfoldable pub decode_entry_name : Bytes → Option Bytes
unfolding stoi
decode_entry_name [] = some []
decode_entry_name (c ∷ []) = if c == b'%' then none else some (c ∷ [])
decode_entry_name (c ∷ h ∷ []) =
    if c == b'%' then none else Option.map (◌∷◌ c) (decode_entry_name (h ∷ []))
decode_entry_name (c ∷ h ∷ l ∷ s) = elim (c == b'%') [
  | true ↦ elim (stoi 16 (h ∷ l ∷ [])) [
    | thrown ↦ none
    | ok value ↦ Option.map (◌∷◌ (to_char value)) (decode_entry_name s)
  ]
  | false ↦ Option.map (◌∷◌ c) (decode_entry_name (h ∷ l ∷ s))
]

-- What one item adds to the list: an empty item or one that does not decode adds nothing.
unfoldable pub decode_item : Bytes → List Bytes
unfolding trim decode_entry_name
decode_item item =
    if is_empty (trim item)
    then []
    else (elim (decode_entry_name (trim item)) [ none ↦ [] | some decoded ↦ decoded ∷ [] ])

unfoldable pub decode_items : List Bytes → List Bytes
unfolding decode_item
decode_items [] = []
decode_items (item ∷ rest) = decode_item item ++ decode_items rest

-- `ParseEncodedList`
unfoldable pub parse_encoded_list : Bytes → List Bytes
unfolding decode_items getlines
parse_encoded_list raw = decode_items (getlines b',' raw)

-- `ParseBatchedHeaderNameV2`
unfoldable pub parse_batched_header_name_v2 : Bytes → Option (ℕ × ℕ)
unfolding rcut stoull
parse_batched_header_name_v2 name =
    if not (starts_with header_prefix name) || starts_with header_error_prefix name
    then none
    else (elim (rcut b'-' (drop (length header_prefix) name)) [
      | none ↦ none
      | some (entry, delta) ↦
          to_option (do entry_idx ← stoull entry; number ← stoull delta; ok (entry_idx, number))
    ])

-- An operation on a label: set it, or remove it.
abbrev pub LabelOp : Type 0
LabelOp = Bytes × Option Bytes

-- The key of an operation: digits stand for a name of the list, if it is long enough.
unfoldable pub resolve_key : Option (List Bytes) → Bytes → Except Bytes
unfolding stoull
resolve_key none key = ok key
resolve_key (some names) key =
    if not (is_empty key) && all is_digit key
    then (do idx ← stoull key; ok (elim (get_elem? names idx) [ none ↦ key | some name ↦ name ]))
    else ok key

abbrev pub non_empty : Bytes → Option Bytes
non_empty [] = none
non_empty (d ∷ t) = some (d ∷ t)

-- The value behind '=', with the text behind it; `none` is a quote that is not closed.
unfoldable pub read_value : Bytes → Option (Option Bytes × Bytes)
unfolding cut trim
read_value [] = some (none, [])
read_value (c ∷ s) =
    if c == b'"'
    then Option.map (λ (p : Bytes × Bytes). (some p.0, p.1)) (cut b'"' s)
    else (elim (cut b',' (c ∷ s)) [
      | none ↦ some (non_empty (trim (c ∷ s)), [])
      | some (slice, rest) ↦ some (non_empty (trim slice), b',' ∷ rest)
    ])

-- The white space that is skipped before the next operation.
unfoldable pub skip_spaces : Bytes → Bytes
skip_spaces [] = []
skip_spaces (c ∷ s) = if is_space c then skip_spaces s else c ∷ s

-- A comma is skipped, then white space.
unfoldable pub next_op : Bytes → Bytes
unfolding skip_spaces
next_op [] = []
next_op (c ∷ s) = if c == b',' then skip_spaces s else skip_spaces (c ∷ s)

-- The loop of `ParseLabelDeltaOps` over the text from `pos` on. Each round goes past a '=', so the
-- length of the text is enough fuel.
unfoldable pub label_ops : ℕ → Option (List Bytes) → Bytes → Except (List LabelOp)
unfolding cut trim resolve_key read_value next_op
label_ops zero names raw = ok []
label_ops (suc fuel) names raw = elim (cut b'=' raw) [
  | none ↦ ok []
  | some (raw_key, behind) ↦ resolve_key names (trim raw_key) >>= λ key. elim (read_value behind) [
    | none ↦ ok []
    | some (value, rest) ↦ label_ops fuel names (next_op rest) >>= λ ops. ok ((key, value) ∷ ops)
  ]
]

-- `ParseLabelDeltaOps`
unfoldable pub parse_label_delta_ops : Bytes → Option (List Bytes) → Except (List LabelOp)
unfolding label_ops
parse_label_delta_ops raw names = label_ops (length raw) names raw

-- The loop of `ApplyLabelDelta`.
unfoldable pub apply_ops : List LabelOp → LabelMap → LabelMap
apply_ops [] labels = labels
apply_ops ((key, some value) ∷ ops) labels = apply_ops ops (assign key value labels)
apply_ops ((key, none) ∷ ops) labels = apply_ops ops (erase key labels)

-- `ApplyLabelDelta`
unfoldable pub apply_label_delta : Bytes → LabelMap → Option (List Bytes) → Except LabelMap
unfolding parse_label_delta_ops apply_ops
apply_label_delta raw base names = do ops ← parse_label_delta_ops raw names; ok (apply_ops ops base)
