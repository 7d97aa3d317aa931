-- ===== src/BatchV2/InTime.antt =====
-- The records of a response over protocol v2 come in the order of their times, entry by entry.
use reduct_cpp.Common.{
  ℕ, zero, suc, ◌+◌, ◌*◌, ◌≤◌, Bool-cases, inl, inr, ◌≡◌, ◌≢◌, refl, sym, ap, ◌∙◌, Bool, false,
  ◌&&◌, Option, some, List, [], ◌∷◌, Bytes, get_elem?, ◌=?◌, =?_iff, ltb, ok, All, arith,
}
use reduct_cpp.Common.Sort.{IsSorted}
use reduct_cpp.Http.{Headers}
use reduct_cpp.Batch.{ReadableRecord}
use reduct_cpp.BatchV2.Records.{ParsedHeader, collect_headers, build_records_v2}
use reduct_cpp.BatchV2.History.{History}
use reduct_cpp.BatchV2.Reads.{IsTimely, Reads, finished, unknown, unreadable, kept}
use reduct_cpp.BatchV2.Responses.{Precedes, AreInOrder, build_records_v2-Reads}

-- No entry stands twice.
abbrev pub IsDistinct : List Bytes → Type 0
IsDistinct [] = Unit
IsDistinct (e ∷ es) = All (λ f. f ≢ e) es × IsDistinct es

All-get_elem? :
    (e f : Bytes) (es : List Bytes) (i : ℕ) → All (λ f. f ≢ e) es → get_elem? es i ≡ some f → f ≢ e
All-get_elem? e f [] i h k = cc
All-get_elem? e f (g ∷ es) zero (n, h) k = λ e. n (ground (arith, k, e))
All-get_elem? e f (g ∷ es) (suc i) (n, h) k = All-get_elem? e f es i h k

get_elem?_inj :
    (es : List Bytes) (i j : ℕ) (e : Bytes)
    → IsDistinct es
    → get_elem? es i ≡ some e
    → get_elem? es j ≡ some e
    → i ≡ j
get_elem?_inj [] i j e d h k = cc
get_elem?_inj (f ∷ es) zero zero e d h k = refl
get_elem?_inj (f ∷ es) zero (suc j) e (n, d) h k =
    absurd (All-get_elem? f e es j n k (ground arith))
get_elem?_inj (f ∷ es) (suc i) zero e (n, d) h k =
    absurd (All-get_elem? f e es i n h (ground arith))
get_elem?_inj (f ∷ es) (suc i) (suc j) e (n, d) h k = ap suc (get_elem?_inj es i j e d h k)

-- A record of the same entry with an earlier time.
abbrev pub before_in_time : ReadableRecord → ReadableRecord → Bool
before_in_time s r = (s.entry =? r.entry) && ltb s.timestamp r.timestamp

module _ (entries : List Bytes) (start_ts : ℕ) (names : Option (List Bytes))
    (distinct : IsDistinct entries) where
  abbrev IsOf : ParsedHeader → ReadableRecord → Type 0
  IsOf h r =
      (get_elem? entries h.entry_idx ≡ some r.entry) × (r.timestamp ≡ (start_ts + h.delta) * 1000)

  -- Headers in order give records in order.
  not_before :
      (h g : ParsedHeader) (r s : ReadableRecord)
      → IsOf h r
      → IsOf g s
      → Precedes h g
      → before_in_time s r ≡ false
  not_before h g r s (at_h, time_h) (at_g, time_g) order = elim (Bool-cases (s.entry =? r.entry)) [
    | inr other ↦ rw other
    | inl same ↦
        let e : s.entry ≡ r.entry = (=?_iff s.entry r.entry).0 same in
        let i : g.entry_idx ≡ h.entry_idx =
          get_elem?_inj entries g.entry_idx h.entry_idx r.entry distinct (at_g ∙ ap some e) at_h in
        let delta : h.delta ≤ g.delta = ground arith in
        let times : r.timestamp ≤ s.timestamp = omega arith in rw same (ground arith)
  ]

  Reads-All :
      {history : History} (h : ParsedHeader) (r : ReadableRecord) {hs : List ParsedHeader}
      {rs : List ReadableRecord}
      → Reads entries start_ts names history hs rs
      → IsOf h r
      → All (Precedes h) hs
      → All (λ s. before_in_time s r ≡ false) rs
  Reads-All h r (finished history) of order = tt
  Reads-All h r (unknown g e reads) of (_, order) = Reads-All h r reads of order
  Reads-All h r (unreadable g e reads) of (_, order) = Reads-All h r reads of order
  Reads-All h r (kept g hs entry header s rs e p (m, t, _, _, _) reads) of (o, order) =
      (not_before h g r s of (e ∙ ap some (sym m), t) o, Reads-All h r reads of order)

  Reads-IsSorted :
      {history : History} {hs : List ParsedHeader} {rs : List ReadableRecord}
      → Reads entries start_ts names history hs rs
      → AreInOrder hs
      → IsSorted before_in_time rs
  Reads-IsSorted (finished history) order = tt
  Reads-IsSorted (unknown g e reads) (_, order) = Reads-IsSorted reads order
  Reads-IsSorted (unreadable g e reads) (_, order) = Reads-IsSorted reads order
  Reads-IsSorted (kept g hs entry header s rs e p (m, t, _, _, _) reads) (o, order) =
      (Reads-All g s reads (e ∙ ap some (sym m), t) o, Reads-IsSorted reads order)

-- The records that are read from a response over protocol v2 come in the order of their times,
-- those of each entry among themselves, if no entry is listed twice and all times are those of the
-- system clock: no record is followed by one of the same entry with an earlier time, in whatever
-- order the headers are iterated.
pub build_records_v2-IsSorted :
    (entries : List Bytes) (start_ts : ℕ) (headers : Headers) (rs : List ReadableRecord)
    → IsDistinct entries
    → All (IsTimely start_ts) (collect_headers headers)
    → build_records_v2 entries start_ts headers ≡ ok rs
    → IsSorted before_in_time rs
build_records_v2-IsSorted entries start_ts headers rs distinct timely e =
    let (_, _, _, _, order, reads, _) =
      build_records_v2-Reads entries start_ts headers rs timely e in
    Reads-IsSorted entries start_ts _ distinct reads order
