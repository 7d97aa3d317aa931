-- ===== src/BatchV2/Reads.antt =====
-- How the sorted headers of a v2 response are read: each against the header read last for its
-- entry.
use mathlib.Core.Path.{subst}
use reduct_cpp.Common.{
  ℕ, ◌+◌, ◌<◌, ◌*◌, ◌%◌, ◌≡◌, refl, ap, ◌∙◌, sym, Bool, true, false, Option, none, some, List, [],
  ◌∷◌, Bytes, length, get_elem?, get_elem?-lt, set, Except, ok, thrown, All, ◌>>=◌, Option-cases,
  inl, inr, arith,
}
use reduct_cpp.Common.Numbers.{u64_mod, ns_limit, ns_of}
use reduct_cpp.Batch.{ReadableRecord}
use reduct_cpp.BatchV2.Records.{
  RecordHeader, ParsedHeader, parse_record_header_v2, last_at, read_headers, mark_last,
}
use reduct_cpp.BatchV2.Said.{
  IsSaid, IsUnsaid, parse_record_header_v2-IsSaid, parse_record_header_v2-IsUnsaid,
}
use reduct_cpp.BatchV2.History.{History, latest, Agrees, set-Agrees}

-- The header's time is one of the system clock.
abbrev pub IsTimely : ℕ → ParsedHeader → Type 0
IsTimely start_ts h = (start_ts + h.delta) * 1000 < ns_limit

real_time : (us : ℕ) → us * 1000 < ns_limit → ns_of (us % u64_mod) ≡ us * 1000
real_time us h = omega arith

-- A record with what its header says of it, for an entry at a time.
abbrev pub IsRead : Bytes → ℕ → RecordHeader → ReadableRecord → Type 0
IsRead entry timestamp header r =
    (r.entry ≡ entry)
    × (r.timestamp ≡ timestamp)
    × (r.size ≡ header.content_length)
    × (r.content_type ≡ header.content_type)
    × (r.labels ≡ header.labels)

-- The records that are read from headers: a header whose entry is not in the list, or that has no
-- length, gives none; each other one gives a record, and is what the next of its entry refers to.
pub data Reads (entries : List Bytes) (start_ts : ℕ) (names : Option (List Bytes))
    : History → List ParsedHeader → List ReadableRecord → Type 0 where
  finished : (history : History) → Reads entries start_ts names history [] []
  unknown :
      {history : History} (h : ParsedHeader) {hs : List ParsedHeader} {rs : List ReadableRecord}
      → get_elem? entries h.entry_idx ≡ none
      → Reads entries start_ts names history hs rs
      → Reads entries start_ts names history (h ∷ hs) rs
  unreadable :
      {history : History} (h : ParsedHeader) {hs : List ParsedHeader} {rs : List ReadableRecord}
      → IsUnsaid h.value
      → Reads entries start_ts names history hs rs
      → Reads entries start_ts names history (h ∷ hs) rs
  kept :
      {history : History} (h : ParsedHeader) (hs : List ParsedHeader) (entry : Bytes)
      (header : RecordHeader) (r : ReadableRecord) (rs : List ReadableRecord)
      → get_elem? entries h.entry_idx ≡ some entry
      → IsSaid (latest h.entry_idx history) names h.value header
      → IsRead entry ((start_ts + h.delta) * 1000) header r
      → Reads entries start_ts names ((h.entry_idx, header) ∷ history) hs rs
      → Reads entries start_ts names history (h ∷ hs) (r ∷ rs)

-- The flag stands on the last record, and on no other.
abbrev pub Flagged : Bool → List ReadableRecord → Type 0
Flagged flag [] = Unit
Flagged flag (r ∷ []) = r.last ≡ flag
Flagged flag (r ∷ s ∷ rs) = (r.last ≡ false) × Flagged flag (s ∷ rs)

pub mark_last-Flagged : (rs : List ReadableRecord) → Flagged false rs → Flagged true (mark_last rs)
mark_last-Flagged [] h = tt
mark_last-Flagged (r ∷ []) h = refl
mark_last-Flagged (r ∷ s ∷ []) (f, h) = (f, refl)
mark_last-Flagged (r ∷ s ∷ t ∷ rs) (f, h) = (f, mark_last-Flagged (s ∷ t ∷ rs) h)

module _ (entries : List Bytes) (start_ts : ℕ) (names : Option (List Bytes)) where
  pub mark_last-Reads :
      {history : History} {hs : List ParsedHeader} {rs : List ReadableRecord}
      → Reads entries start_ts names history hs rs
      → Reads entries start_ts names history hs (mark_last rs)
  mark_last-Reads (finished history) = finished history
  mark_last-Reads (unknown h e reads) = unknown h e (mark_last-Reads reads)
  mark_last-Reads (unreadable h e reads) = unreadable h e (mark_last-Reads reads)
  mark_last-Reads (kept h hs entry header r [] e p m reads) =
      kept h hs entry header (record r { last = true }) [] e p m reads
  mark_last-Reads (kept h hs entry header r (s ∷ rs) e p m reads) =
      kept h hs entry header r (mark_last (s ∷ rs)) e p m (mark_last-Reads reads)

  -- The record that a header gives, before the flag is set.
  abbrev pub record_of : ParsedHeader → Bytes → RecordHeader → ReadableRecord
  record_of h entry header = record {
    entry = entry;
    timestamp = ns_of ((start_ts + h.delta) % u64_mod);
    size = header.content_length;
    last = false;
    labels = header.labels;
    content_type = header.content_type;
  }

  -- What follows when the entry is known and its header was read.
  abbrev pub read_found :
      ParsedHeader
      → List ParsedHeader
      → List (Option RecordHeader)
      → Bytes
      → Except (Option RecordHeader)
      → Except (List ReadableRecord)
  read_found h hs last entry thrown = thrown
  read_found h hs last entry (ok none) = read_headers entries start_ts names hs last
  read_found h hs last entry (ok (some header)) =
      read_headers entries start_ts names hs (set last h.entry_idx (some header)) >>= λ records.
      ok (record_of h entry header ∷ records)

  pub step_unknown :
      (h : ParsedHeader) (hs : List ParsedHeader) (last : List (Option RecordHeader))
      → get_elem? entries h.entry_idx ≡ none
      → read_headers entries start_ts names (h ∷ hs) last
        ≡ read_headers entries start_ts names hs last
  unfolding read_headers
  step_unknown h hs last e = rw (e, read_headers) refl

  pub step_known :
      (h : ParsedHeader) (hs : List ParsedHeader) (last : List (Option RecordHeader))
      (entry : Bytes) (found : Except (Option RecordHeader))
      → get_elem? entries h.entry_idx ≡ some entry
      → parse_record_header_v2 h.value (last_at last h.entry_idx) names ≡ found
      → read_headers entries start_ts names (h ∷ hs) last ≡ read_found h hs last entry found
  unfolding read_headers
  step_known h hs last entry thrown e p = rw (e, p, read_headers) refl
  step_known h hs last entry (ok none) e p = rw (e, p, read_headers) refl
  step_known h hs last entry (ok (some header)) e p = rw (e, p, read_headers) refl

  -- What is read behind a record stands behind it.
  bind_inv :
      (r : ReadableRecord) (rest : Except (List ReadableRecord)) (rs : List ReadableRecord)
      → (rest >>= λ records. ok (r ∷ records)) ≡ ok rs
      → (tail : List ReadableRecord) × (rest ≡ ok tail) × (r ∷ tail ≡ rs)
  bind_inv r thrown rs e = cc
  bind_inv r (ok tail) rs e = (tail, refl, ground arith)

  Flagged-cons :
      (r : ReadableRecord) (rs : List ReadableRecord)
      → r.last ≡ false
      → Flagged false rs
      → Flagged false (r ∷ rs)
  Flagged-cons r [] f h = f
  Flagged-cons r (s ∷ rs) f h = (f, h)

  abbrev pub Outcome : History → List ParsedHeader → List ReadableRecord → Type 0
  Outcome history hs rs = Reads entries start_ts names history hs rs × Flagged false rs

  -- A known entry's header, where all that follows is read as it should be.
  found-Reads :
      (h : ParsedHeader) (hs : List ParsedHeader) (last : List (Option RecordHeader))
      (history : History) (rs : List ReadableRecord) (entry : Bytes)
      (found : Except (Option RecordHeader))
      → ((last : List (Option RecordHeader)) (history : History) (rs : List ReadableRecord)
          → Agrees (length entries) last history
          → read_headers entries start_ts names hs last ≡ ok rs
          → Outcome history hs rs)
      → IsTimely start_ts h
      → Agrees (length entries) last history
      → get_elem? entries h.entry_idx ≡ some entry
      → parse_record_header_v2 h.value (latest h.entry_idx history) names ≡ found
      → read_found h hs last entry found ≡ ok rs
      → Outcome history (h ∷ hs) rs
  found-Reads h hs last history rs entry thrown ih real agrees there p e = cc
  found-Reads h hs last history rs entry (ok none) ih real agrees there p e =
      let (reads, flags) = ih last history rs agrees e in
      (
        unreadable h (parse_record_header_v2-IsUnsaid (latest h.entry_idx history) names h.value p)
            reads,
        flags,
      )
  found-Reads h hs last history rs entry (ok (some header)) ih real agrees there p e =
      let (tail, rest, whole) = bind_inv (record_of h entry header) _ rs e in
      let (reads, flags) =
        ih _ ((h.entry_idx, header) ∷ history) tail
          (set-Agrees (length entries) last history h.entry_idx header
            (get_elem?-lt entries h.entry_idx there) agrees)
          rest in
      subst (Outcome history (h ∷ hs)) whole (
        kept h hs entry header (record_of h entry header) tail there
            (parse_record_header_v2-IsSaid (latest h.entry_idx history) names h.value header p)
            (refl, real_time (start_ts + h.delta) real, refl, refl, refl) reads,
        Flagged-cons (record_of h entry header) tail refl flags,
      )

  pub read_headers-Reads :
      (hs : List ParsedHeader) (last : List (Option RecordHeader)) (history : History)
      (rs : List ReadableRecord)
      → All (IsTimely start_ts) hs
      → Agrees (length entries) last history
      → read_headers entries start_ts names hs last ≡ ok rs
      → Outcome history hs rs
  read_headers-Reads [] last history rs all agrees e =
      let none_left : [] ≡ rs = unfold read_headers in ground arith in
      subst (Outcome history []) none_left (finished history, tt)
  read_headers-Reads (h ∷ hs) last history rs (real, all) agrees e =
      elim (Option-cases (get_elem? entries h.entry_idx)) [
        | inl absent ↦
            let (reads, flags) =
              read_headers-Reads hs last history rs all agrees
                (sym (step_unknown h hs last absent) ∙ e) in
            (unknown h absent reads, flags)
        | inr (entry, there) ↦
            let same = agrees.1 h.entry_idx (get_elem?-lt entries h.entry_idx there) in
            let p : parse_record_header_v2 h.value (last_at last h.entry_idx) names
                ≡ parse_record_header_v2 h.value (latest h.entry_idx history) names =
              ap (λ previous. parse_record_header_v2 h.value previous names) same in
            found-Reads h hs last history rs entry _
              (λ l past rs. read_headers-Reads hs l past rs all) real agrees there refl
              (sym (step_known h hs last entry _ there p) ∙ e)
      ]
