-- ===== src/BatchV2/Requests.antt =====
-- The request that `BuildBatchV2Request` builds names every record's entry and time.
use reduct_cpp.Common.{
  ℕ, ◌+◌, ◌≤◌, ◌<◌, ◌≡◌, Bool, true, false, none, some, List, [], ◌∷◌, map, Bytes, length,
  get_elem?, All, Option-cases, inl, inr, Bool-cases, ◌=?◌, =?_refl, =?_iff, get_elem?-lt,
  length-map, no_error, is_error, arith,
}
use reduct_cpp.Common.Numbers.{u64_mod}
use reduct_cpp.Format.{Fmt}
use reduct_cpp.Http.{Headers, find_header, emplace_header}
use reduct_cpp.Batch.{Record, Batch}
use reduct_cpp.BatchV1.{BatchType, record_entry, record_at, sort_records}
use reduct_cpp.BatchV1.Order.{length-sort_records}
use reduct_cpp.BatchV2.Decode.{parse_batched_header_name_v2}
use reduct_cpp.BatchV2.Build.{
  BatchRequest, entry_index, time_of, delta_of, scan_records, record_header_name, max_u64,
  no_request, entry_required, first_headers, build_header_value_v2, add_headers, build_ordered,
  build_batch_v2_request,
}
use reduct_cpp.BatchV2.Headers.{parse_batched_header_name_v2_lem}
use reduct_cpp.BatchV2.Deltas.{index_of_sound, Scanned, scan_records_sound, delta_of_lem}

find-emplace_self :
    (k v : Bytes) (hs : Headers) → (w : Bytes) × (find_header k (emplace_header k v hs) ≡ some w)
unfolding find_header emplace_header
find-emplace_self k v [] = (v, rw (=?_refl k))
find-emplace_self k v ((j, w) ∷ hs) = elim (Bool-cases (j =? k)) [
  | inl same ↦ (w, rw (same, same))
  | inr other ↦ let (u, e) = find-emplace_self k v hs in (u, rw (other, other) e)
]

-- A header that is there stays as it is.
find-emplace_old :
    (k v j w : Bytes) (hs : Headers)
    → find_header j hs ≡ some w
    → find_header j (emplace_header k v hs) ≡ some w
unfolding find_header emplace_header
find-emplace_old k v j w [] h = cc
find-emplace_old k v j w ((i, u) ∷ hs) h =
    ground (arith, =?_iff i k, =?_iff i j, find-emplace_old k v j w hs)

module _ (fmt : Fmt) (type : BatchType) (default_entry : Bytes) (entries : List Bytes)
    (start : ℕ) where
  abbrev pub name_of : Record → Bytes
  name_of r =
      record_header_name fmt (entry_index (record_entry r default_entry) entries)
        (delta_of (time_of r) start)

  add_headers_old :
      (rs : List Record) (j w : Bytes) (hs : Headers)
      → find_header j hs ≡ some w
      → find_header j (add_headers fmt type default_entry entries start rs hs) ≡ some w
  unfolding add_headers
  add_headers_old [] j w hs h = h
  add_headers_old (r ∷ rs) j w hs h =
      add_headers_old rs j w _
        (find-emplace_old (name_of r) (build_header_value_v2 fmt r type) j w hs h)

  -- Each record has a header of its name.
  add_headers-All :
      (rs : List Record) (hs : Headers)
      → All
          (λ r.
            (w : Bytes) × (find_header
                (name_of r)
                (add_headers fmt type default_entry entries start rs hs)
              ≡ some w))
          rs
  unfolding add_headers
  add_headers-All [] hs = tt
  add_headers-All (r ∷ rs) hs =
      let (w, e) = find-emplace_self (name_of r) (build_header_value_v2 fmt r type) hs in
      ((w, add_headers_old rs (name_of r) w _ e), add_headers-All rs _)

-- The request has a header for the record: its name is read as an index and a number, the entries
-- hold the record's entry at the index, and the number and the start have the record's time in
-- microseconds as their sum, which does not wrap around.
abbrev pub Named : Fmt → Bytes → BatchRequest → Record → Type 0
Named fmt default_entry request r =
    let idx = entry_index (record_entry r default_entry) request.entries in
    let delta = delta_of (time_of r) request.start_ts in
    ((w : Bytes) × (find_header (record_header_name fmt idx delta) request.headers ≡ some w))
    × (parse_batched_header_name_v2 (record_header_name fmt idx delta) ≡ some (idx, delta))
    × (get_elem? request.entries idx ≡ some (record_entry r default_entry))
    × (request.start_ts + delta ≡ time_of r)

Scanned-Named :
    (fmt : Fmt) (default_entry : Bytes) (request : BatchRequest) (rs : List Record)
    → length request.entries ≤ u64_mod
    → All (Scanned default_entry request.entries request.start_ts) rs
    → All
        (λ r.
          (w : Bytes) × (find_header
              (record_header_name fmt
                (entry_index (record_entry r default_entry) request.entries)
                (delta_of (time_of r) request.start_ts))
              request.headers
            ≡ some w))
        rs
    → All (Named fmt default_entry request) rs
Scanned-Named fmt default_entry request [] few h k = tt
Scanned-Named fmt default_entry request (r ∷ rs) few ((early, (n, found)), h) (header, k) =
    let idx : entry_index (record_entry r default_entry) request.entries ≡ n =
      (rw (found, entry_index)) in
    let at = index_of_sound (record_entry r default_entry) request.entries n found in
    let (small, sum) = delta_of_lem (time_of r) request.start_ts early (omega arith) in
    (
      (
        header,
        parse_batched_header_name_v2_lem fmt _ _
            (omega (arith, idx, get_elem?-lt request.entries n at)) small,
        rw idx at,
        sum,
      ),
      Scanned-Named fmt default_entry request rs few h k,
    )

module _ (fmt : Fmt) (default_entry : Bytes) (batch : Batch) (type : BatchType)
    (require_entry : Bool) where
  pub build_ordered_missing :
      (idx : ℕ) (rest : List ℕ)
      → scan_records default_entry require_entry
          (map (record_at batch.records) (idx ∷ rest))
          []
          max_u64
        ≡ none
      → build_ordered fmt default_entry batch type require_entry (idx ∷ rest)
        ≡ record { result = no_request; error = entry_required }
  unfolding build_ordered
  build_ordered_missing idx rest e = rw (e, build_ordered)

  abbrev pub full_request : ℕ → List ℕ → List Bytes → ℕ → BatchRequest
  full_request idx rest entries start_ts = record {
    ordered = idx ∷ rest;
    entries = entries;
    start_ts = start_ts;
    headers =
        add_headers fmt type default_entry entries start_ts
          (map (record_at batch.records) (idx ∷ rest)) (first_headers fmt entries start_ts);
  }

  pub build_ordered_full :
      (idx : ℕ) (rest : List ℕ) (entries : List Bytes) (start_ts : ℕ)
      → scan_records default_entry require_entry
          (map (record_at batch.records) (idx ∷ rest))
          []
          max_u64
        ≡ some (entries, start_ts)
      → build_ordered fmt default_entry batch type require_entry (idx ∷ rest)
        ≡ record { result = full_request idx rest entries start_ts; error = no_error }
  unfolding build_ordered
  build_ordered_full idx rest entries start_ts e = rw (e, build_ordered)

  build_ordered-Named :
      (ordered : List ℕ)
      → length ordered < u64_mod
      → is_error (build_ordered fmt default_entry batch type require_entry ordered).error ≡ false
      → All
          (Named fmt default_entry
            (build_ordered fmt default_entry batch type require_entry ordered).result)
          (map
            (record_at batch.records)
            (build_ordered fmt default_entry batch type require_entry ordered).result.ordered)
  build_ordered-Named [] few fine = unfold build_ordered in tt
  build_ordered-Named (idx ∷ rest) few fine =
      let sorted = map (record_at batch.records) (idx ∷ rest) in
      elim (Option-cases (scan_records default_entry require_entry sorted [] max_u64)) [
        | inl missing ↦ absurd (cc (rw (build_ordered_missing idx rest missing) at fine))
        | inr ((entries, start_ts), e) ↦
            let (_, _, count, scanned) =
              scan_records_sound default_entry require_entry sorted [] entries max_u64 start_ts e in
            rw (build_ordered_full idx rest entries start_ts e) (
              Scanned-Named fmt default_entry (full_request idx rest entries start_ts) sorted
                (omega (arith, length-map (record_at batch.records) (idx ∷ rest))) scanned
                (add_headers-All fmt type default_entry entries start_ts sorted
                  (first_headers fmt entries start_ts)))
      ]

  pub build_batch_v2_request-Named :
      length batch.records < u64_mod
      → is_error (build_batch_v2_request fmt default_entry batch type require_entry).error ≡ false
      → All
          (Named fmt default_entry
            (build_batch_v2_request fmt default_entry batch type require_entry).result)
          (map
            (record_at batch.records)
            (build_batch_v2_request fmt default_entry batch type require_entry).result.ordered)
  unfolding build_batch_v2_request
  build_batch_v2_request-Named few fine =
      build_ordered-Named (sort_records batch default_entry true)
        (omega (arith, length-sort_records batch default_entry true)) fine
