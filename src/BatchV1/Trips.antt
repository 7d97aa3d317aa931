-- ===== src/BatchV1/Trips.antt =====
-- A batch that was written over protocol v1, read back from a response with its headers.
use reduct_cpp.Common.{
  ℕ, ◌+◌, ◌-◌, ◌*◌, ◌%◌, ◌<◌, ◌≡◌, refl, sym, ap, ◌∙◌, Bool, true, false, ◌&&◌, List, [], ◌∷◌, ◌++◌,
  map, append_assoc, append-nil, Bytes, codes, length, length-append, drop, ◌=?◌, ◌==◌, All, ok,
  done, then_run, arith,
}
use reduct_cpp.Common.Numbers.{u64_mod, ns_limit, stoull-to_string}
use reduct_cpp.Common.Table.{Table, IsOrdered, bytes_ord, All-heads, All-tails}
use reduct_cpp.Format.{Fmt}
use reduct_cpp.Http.{Headers, find_header}
use reduct_cpp.Batch.{Record, ReadableRecord, Batch}
use reduct_cpp.BatchV1.{
  write, to_microseconds, from_microseconds, record_at, header_time_prefix, header_last,
  count_times, build_records, parse_and_build_batched_records_v1,
}
use reduct_cpp.BatchV1.Process.{headers_v1}
use reduct_cpp.BatchV1.Rejections.{back_in_ns}
use reduct_cpp.BatchV1.Csv.{parse_csv-header_value_v1}
use reduct_cpp.BatchV1.Sendable.{
  IsKept, IsRising, as_read, all_read, header_of, emplace_header_last, order_headers-IsOrdered,
  headers-IsOrdered,
}

module _ (fmt : Fmt) where
  -- The headers of a batch are those of its records, in their order.
  headers_v1-map :
      (batch : Batch) (ordered : List ℕ) (hs : Headers)
      → IsOrdered (map (header_of fmt) (map (record_at batch.records) ordered))
      → All
          (λ e.
            All
              (λ l. bytes_ord.lt e.0 l.0 ≡ true)
              (map (header_of fmt) (map (record_at batch.records) ordered)))
          hs
      → headers_v1 fmt write batch ordered hs
        ≡ hs ++ map (header_of fmt) (map (record_at batch.records) ordered)
  unfolding headers_v1
  headers_v1-map batch [] hs h above = sym (append-nil hs)
  headers_v1-map batch (idx ∷ ordered) hs (first, h) above =
      let r = record_at batch.records idx in
      let rest = map (header_of fmt) (map (record_at batch.records) ordered) in
      let k = (header_of fmt r).0 in
      let v = (header_of fmt r).1 in
      ap (headers_v1 fmt write batch ordered)
        (emplace_header_last k v hs (All-heads k v rest hs above))
      ∙ headers_v1-map batch ordered (hs ++ (k, v) ∷ []) h (All-tails (k, v) rest hs above first)
      ∙ append_assoc hs ((k, v) ∷ []) rest

  pub count_times-map : (rs : List Record) → count_times (map (header_of fmt) rs) ≡ length rs
  count_times-map [] = refl
  count_times-map (r ∷ rs) = ground (arith, count_times-map rs)

  pub last_below :
      (rs : List Record) → All (λ e. bytes_ord.lt header_last e.0 ≡ true) (map (header_of fmt) rs)
  last_below [] = tt
  last_below (r ∷ rs) = (refl, last_below rs)

  time_of_header :
      (r : Record)
      → r.timestamp < ns_limit
      → from_microseconds (drop (length header_time_prefix) (header_of fmt r).0)
        ≡ ok (to_microseconds r.timestamp * 1000)
  unfolding from_microseconds
  time_of_header r lt =
      rw
        (
          fmt.uint_decimal (to_microseconds r.timestamp),
          stoull-to_string (to_microseconds r.timestamp) (omega arith),
        )
        (rw (back_in_ns r.timestamp lt) refl)

  -- One round of the loop.
  build_records_step :
      (total : ℕ) (flag : Bool) (r : Record) (rest : Table Bytes Bytes)
      (records : List ReadableRecord)
      → IsKept r
      → build_records total flag (header_of fmt r ∷ rest) records
        ≡ build_records total flag rest
            (records ++ as_read ((length records == total - 1) && flag) r ∷ [])
  unfolding build_records
  build_records_step total flag r rest records (time, size, bare, unquoted, ordered, labels) =
      let whole : r.size % u64_mod ≡ r.size = omega arith in
      rw (parse_csv-header_value_v1 fmt r size bare unquoted ordered labels)
        (rw (time_of_header r time, then_run) (rw whole refl))

  -- The records behind those that were read, with the flag on the last.
  pub build_records-map :
      (total : ℕ) (flag : Bool) (rs : List Record) (records : List ReadableRecord)
      → All IsKept rs
      → total ≡ length records + length rs
      → build_records total flag (map (header_of fmt) rs) records
        ≡ done (records ++ all_read flag rs)
  build_records-map total flag [] records h e =
      unfold build_records in ap done (sym (append-nil records))
  build_records-map total flag (r ∷ []) records (k, h) e =
      let here : (length records == total - 1) ≡ true = ground arith in
      build_records_step total flag r [] records k ∙ (unfold build_records in rw here refl)
  build_records-map total flag (r ∷ s ∷ rs) records (k, h) e =
      let early : (length records == total - 1) ≡ false = ground arith in
      let one : List ReadableRecord = as_read false r ∷ [] in
      build_records_step total flag r (map (header_of fmt) (s ∷ rs)) records k
      ∙ rw early (
          build_records-map total flag (s ∷ rs) (records ++ one) h
            (omega (arith, length-append records one))
          ∙ ap done (append_assoc records one (all_read flag (s ∷ rs))))

  parse_and_build-map :
      (digits : ℕ) (rs : List Record) (text : Bytes)
      → IsRising digits rs
      → All IsKept rs
      → parse_and_build_batched_records_v1 ((header_last, text) ∷ map (header_of fmt) rs)
        ≡ done (all_read (text =? codes "true") rs)
  unfolding parse_and_build_batched_records_v1 build_records find_header
  parse_and_build-map digits rs text rising kept =
      rw
        (
          order_headers-IsOrdered ((header_last, text) ∷ map (header_of fmt) rs)
              (last_below rs, headers-IsOrdered fmt digits rs rising),
          count_times-map rs,
        )
        (build_records-map (length rs) (text =? codes "true") rs [] kept (omega arith))

  -- The headers of a batch to write over protocol v1, in a response that also says whether its
  -- records are the last, are read back as the batch's records in the order in which they were
  -- written: each with its time to the microsecond, its size, its content type and its labels, and
  -- the flag on the last one, where the response says so. This holds where the times, of the system
  -- clock, rise in microseconds along the order with as many decimal digits each, the sizes are
  -- below 2 ^ 63, the content types have no comma and begin with no quote, and the labels are
  -- ordered by their keys, with no comma, no '=' in a key and no quote in front of one.
  pub parse_and_build-headers_v1 :
      (batch : Batch) (ordered : List ℕ) (digits : ℕ) (text : Bytes)
      → IsRising digits (map (record_at batch.records) ordered)
      → All IsKept (map (record_at batch.records) ordered)
      → parse_and_build_batched_records_v1
          ((header_last, text) ∷ headers_v1 fmt write batch ordered [])
        ≡ done (all_read (text =? codes "true") (map (record_at batch.records) ordered))
  parse_and_build-headers_v1 batch ordered digits text rising kept =
      ap (λ hs. parse_and_build_batched_records_v1 ((header_last, text) ∷ hs))
        (headers_v1-map batch ordered []
          (headers-IsOrdered fmt digits (map (record_at batch.records) ordered) rising) tt)
      ∙ parse_and_build-map digits (map (record_at batch.records) ordered) text rising kept
