-- ===== src/BatchV1/Texts.antt =====
-- The order of the records of a v1 response is that of the texts of their times.
use reduct_cpp.Common.{
  ◌≡◌, refl, ap, true, false, [], ◌∷◌, Bytes, codes, ◌=?◌, ◌<?◌, <?_irrefl, <?_trans, done,
  Bool-cases, inl, inr,
}
use reduct_cpp.Common.Numbers.{to_string}
use reduct_cpp.Common.Table.{emplace, bytes_ord}
use reduct_cpp.Format.{Fmt}
use reduct_cpp.Http.{find_header}
use reduct_cpp.Batch.{Record}
use reduct_cpp.BatchV1.{
  to_microseconds, header_last, order_headers, build_records, parse_and_build_batched_records_v1,
}
use reduct_cpp.BatchV1.Sendable.{IsKept, all_read, header_of}
use reduct_cpp.BatchV1.Trips.{build_records-map}

asym : (s t : Bytes) → (t <? s) ≡ true → (s <? t) ≡ false
asym s t h = elim (Bool-cases (s <? t)) [ inl k ↦ cc (<?_trans s t s k h, <?_irrefl s) | inr k ↦ k ]

emplace_before :
    (k v j w : Bytes)
    → (j <? k) ≡ true
    → (k <? j) ≡ false
    → emplace k v ((j, w) ∷ []) ≡ (j, w) ∷ (k, v) ∷ []
unfolding emplace
emplace_before k v j w before after = rw (after, before)

module _ (fmt : Fmt) where
  text_lt :
      (r s : Record)
      → (to_string (to_microseconds s.timestamp) <? to_string (to_microseconds r.timestamp)) ≡ true
      → ((header_of fmt s).0 <? (header_of fmt r).0) ≡ true
  text_lt r s h =
      rw
        (
          fmt.uint_decimal (to_microseconds s.timestamp),
          fmt.uint_decimal (to_microseconds r.timestamp),
        )
        h

  order_headers_texts :
      (r s : Record) (text : Bytes)
      → (to_string (to_microseconds s.timestamp) <? to_string (to_microseconds r.timestamp)) ≡ true
      → order_headers ((header_last, text) ∷ header_of fmt r ∷ header_of fmt s ∷ [])
        ≡ (header_last, text) ∷ header_of fmt s ∷ header_of fmt r ∷ []
  unfolding order_headers emplace
  order_headers_texts r s text h =
      let before = text_lt r s h in
      let after = asym (header_of fmt r).0 (header_of fmt s).0 before in
      ap (emplace header_last text) (
        emplace_before (header_of fmt r).0 (header_of fmt r).1 (header_of fmt s).0
          (header_of fmt s).1 before after)

  -- Two records of a response over protocol v1, whose headers survive, come in the order of the
  -- texts of their times in microseconds, with the flag on the latter one where the response says
  -- so: the record whose text comes first in the order of strings is the first, also where its
  -- time is the later one and its data stand behind the other's, as for 9 and 10.
  pub parse_and_build_texts :
      (r s : Record) (text : Bytes)
      → IsKept r
      → IsKept s
      → (to_string (to_microseconds s.timestamp) <? to_string (to_microseconds r.timestamp)) ≡ true
      → parse_and_build_batched_records_v1
          ((header_last, text) ∷ header_of fmt r ∷ header_of fmt s ∷ [])
        ≡ done (all_read (text =? codes "true") (s ∷ r ∷ []))
  unfolding parse_and_build_batched_records_v1 build_records find_header
  parse_and_build_texts r s text kept_r kept_s h =
      rw (order_headers_texts r s text h)
        (build_records-map fmt 2 (text =? codes "true") (s ∷ r ∷ []) [] (kept_s, (kept_r, tt)) refl)
