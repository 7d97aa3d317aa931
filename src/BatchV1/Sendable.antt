-- ===== src/BatchV1/Sendable.antt =====
-- The headers of records whose times rise, as `ProcessBatchV1` writes them.
use reduct_cpp.Common.{
  ℕ, ◌*◌, ◌<◌, ◌^◌, ◌≡◌, refl, sym, ap, ◌∙◌, Bool, true, false, List, [], ◌∷◌, ◌++◌, map, Bytes,
  length, ◌=?◌, =?_iff, ◌<?◌, <?_irrefl, All, Lacks, arith,
}
use reduct_cpp.Common.Numbers.{ns_limit, to_string}
use reduct_cpp.Common.Decimal.{to_string-<?}
use reduct_cpp.Common.Table.{Table, IsOrdered, emplace, bytes_ord}
use reduct_cpp.Format.{Fmt}
use reduct_cpp.Http.{Headers, emplace_header}
use reduct_cpp.Batch.{Record, ReadableRecord}
use reduct_cpp.BatchV1.{write, to_microseconds, header_time_prefix, order_headers}
use reduct_cpp.BatchV1.Process.{header_value_v1}
use reduct_cpp.BatchV1.Csv.{IsUnquoted, IsPlain}

-- A record whose header survives.
abbrev pub IsKept : Record → Type 0
IsKept r =
    (r.timestamp < ns_limit)
    × (r.size < 2 ^ 63)
    × Lacks b',' r.content_type
    × IsUnquoted r.content_type
    × IsOrdered r.labels
    × All IsPlain r.labels

-- The times in microseconds rise, and have as many digits.
abbrev pub IsRising : ℕ → List Record → Type 0
IsRising digits [] = Unit
IsRising digits (r ∷ rs) =
    (length (to_string (to_microseconds r.timestamp)) ≡ digits)
    × All (λ s. to_microseconds r.timestamp < to_microseconds s.timestamp) rs
    × IsRising digits rs

-- What is read of a record: its time to the microsecond.
abbrev pub as_read : Bool → Record → ReadableRecord
as_read flag r = record {
  entry = [];
  timestamp = to_microseconds r.timestamp * 1000;
  size = r.size;
  last = flag;
  labels = r.labels;
  content_type = r.content_type;
}

-- What is read of all of them, with the flag on the last.
abbrev pub all_read : Bool → List Record → List ReadableRecord
all_read flag [] = []
all_read flag (r ∷ []) = as_read flag r ∷ []
all_read flag (r ∷ s ∷ rs) = as_read false r ∷ all_read flag (s ∷ rs)

pub emplace_header_last :
    (k v : Bytes) (hs : Headers)
    → All (λ e. (e.0 <? k) ≡ true) hs
    → emplace_header k v hs ≡ hs ++ (k, v) ∷ []
unfolding emplace_header
emplace_header_last k v [] h = refl
emplace_header_last k v ((j, w) ∷ hs) (p, h) =
    let other : (j =? k) ≡ false = ground (arith, =?_iff j k, <?_irrefl k) in
    rw other (ap (◌∷◌ (j, w)) (emplace_header_last k v hs h))

pub order_headers-IsOrdered : (m : Table Bytes Bytes) → IsOrdered m → order_headers m ≡ m
unfolding order_headers
order_headers-IsOrdered [] h = refl
order_headers-IsOrdered ((k, v) ∷ m) (p, h) =
    rw (order_headers-IsOrdered m h) (emplace_first k v m p)
  where
    emplace_first :
        (k v : Bytes) (m : Table Bytes Bytes)
        → All (λ e. bytes_ord.lt k e.0 ≡ true) m
        → emplace k v m ≡ (k, v) ∷ m
    emplace_first k v [] h = unfold emplace in refl
    emplace_first k v ((j, w) ∷ m) (p, h) = unfold emplace in rw p

module _ (fmt : Fmt) where
  -- The header of a record.
  abbrev pub header_of : Record → Bytes × Bytes
  header_of r =
      (header_time_prefix ++ fmt.uint (to_microseconds r.timestamp), header_value_v1 fmt write r)

  header_of_lt :
      (digits : ℕ) (r : Record) (rs : List Record)
      → length (to_string (to_microseconds r.timestamp)) ≡ digits
      → All (λ s. to_microseconds r.timestamp < to_microseconds s.timestamp) rs
      → IsRising digits rs
      → All (λ e. bytes_ord.lt (header_of r).0 e.0 ≡ true) (map header_of rs)
  header_of_lt digits r [] e lt h = tt
  header_of_lt digits r (s ∷ rs) e (lt, above) (f, _, h) = (
    rw
        (
          fmt.uint_decimal (to_microseconds r.timestamp),
          fmt.uint_decimal (to_microseconds s.timestamp),
        )
        (to_string-<? (to_microseconds r.timestamp) (to_microseconds s.timestamp) (e ∙ sym f) lt),
    header_of_lt digits r rs e above h,
  )

  pub headers-IsOrdered :
      (digits : ℕ) (rs : List Record) → IsRising digits rs → IsOrdered (map header_of rs)
  headers-IsOrdered digits [] h = tt
  headers-IsOrdered digits (r ∷ rs) (e, above, h) =
      (header_of_lt digits r rs e above h, headers-IsOrdered digits rs h)
