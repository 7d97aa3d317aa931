-- ===== src/BatchV2/Responses.antt =====
-- The records of a v2 response (`ParseAndBuildBatchedRecordsV2`), in their order and with their
-- flag.
use mathlib.Core.Path.{subst}
use mathlib.Core.List.{Perm}
use reduct_cpp.Common.{
  ℕ, ◌<◌, ◌≤◌, ◌⊎◌, ◌==◌, All, ◌≡◌, refl, ◌∙◌, sym, Bool, false, Option, none, some, List, [], ◌∷◌,
  Bytes, length, replicate, if◌then◌else◌, Except, ok, thrown, ◌>>=◌, Bool-cases, inl, inr, arith,
  codes,
}
use reduct_cpp.Common.Sort.{IsStrictWeak, IsSorted, sort, sort-perm, sort-IsSorted, sort-All}
use reduct_cpp.Http.{Headers, find_header, header_is}
use reduct_cpp.Batch.{ReadableRecord}
use reduct_cpp.BatchV1.{header_last}
use reduct_cpp.BatchV2.Decode.{parse_encoded_list}
use reduct_cpp.BatchV2.Records.{
  ParsedHeader, header_labels, header_before, collect_headers, read_headers, mark_last,
  build_records_v2,
}
use reduct_cpp.BatchV2.Collected.{Collects, collect_headers-Collects}
use reduct_cpp.BatchV2.History.{History, replicate-Agrees}
use reduct_cpp.BatchV2.Reads.{
  IsTimely, Reads, Flagged, mark_last-Flagged, mark_last-Reads, read_headers-Reads,
}

-- By the entry's index, then by the time.
pub header_before-IsStrictWeak : IsStrictWeak header_before
unfolding header_before
header_before-IsStrictWeak = record {
  irrefl = λ x. ground arith;
  trans = λ x y z h k. ground arith;
  neg_trans = λ x y z h k. ground arith;
}

-- Headers in order: of an entry with a smaller index first, and those of one entry by their
-- numbers.
abbrev pub Precedes : ParsedHeader → ParsedHeader → Type 0
Precedes h g = (h.entry_idx < g.entry_idx) ⊎ ((h.entry_idx ≡ g.entry_idx) × (h.delta ≤ g.delta))

abbrev pub AreInOrder : List ParsedHeader → Type 0
AreInOrder [] = Unit
AreInOrder (h ∷ hs) = All (Precedes h) hs × AreInOrder hs

header_before-Precedes : (h g : ParsedHeader) → header_before g h ≡ false → Precedes h g
unfolding header_before
header_before-Precedes h g e = elim (Bool-cases (g.entry_idx == h.entry_idx)) [
  | inl same ↦ inr (ground arith, ground arith)
  | inr other ↦ inl (ground arith)
]

All-Precedes :
    (h : ParsedHeader) (hs : List ParsedHeader)
    → All (λ g. header_before g h ≡ false) hs
    → All (Precedes h) hs
All-Precedes h [] order = tt
All-Precedes h (g ∷ hs) (o, order) = (header_before-Precedes h g o, All-Precedes h hs order)

IsSorted-AreInOrder : (hs : List ParsedHeader) → IsSorted header_before hs → AreInOrder hs
IsSorted-AreInOrder [] order = tt
IsSorted-AreInOrder (h ∷ hs) (o, order) = (All-Precedes h hs o, IsSorted-AreInOrder hs order)

-- The names of labels that a response gives.
abbrev pub label_names : Headers → Option (List Bytes)
label_names headers = elim (find_header header_labels headers) [
  | none ↦ none
  | some raw ↦ some (parse_encoded_list raw)
]

-- What is read of the sorted headers, and the flag.
abbrev pub flag_last : Headers → List ReadableRecord → List ReadableRecord
flag_last headers rs = if header_is header_last (codes "true") headers then mark_last rs else rs

abbrev pub flagged : Headers → Except (List ReadableRecord) → Except (List ReadableRecord)
flagged headers read = read >>= λ rs. ok (flag_last headers rs)

pub build_records_v2_lem :
    (entries : List Bytes) (start_ts : ℕ) (headers : Headers)
    → build_records_v2 entries start_ts headers
      ≡ flagged headers (
          read_headers entries start_ts
            (label_names headers)
            (sort header_before (collect_headers headers))
            (replicate (length entries) none))
unfolding build_records_v2
build_records_v2_lem entries start_ts headers = refl

flagged_inv :
    (headers : Headers) (read : Except (List ReadableRecord)) (rs : List ReadableRecord)
    → flagged headers read ≡ ok rs
    → (found : List ReadableRecord) × (read ≡ ok found) × (flag_last headers found ≡ rs)
flagged_inv headers thrown rs e = cc
flagged_inv headers (ok found) rs e = (found, refl, ground arith)

-- Whether the response says that its records are the last.
abbrev pub says_last : Headers → Bool
says_last headers = header_is header_last (codes "true") headers

flag_last-Outcome :
    (entries : List Bytes) (start_ts : ℕ) (headers : Headers) (history : History)
    (hs : List ParsedHeader) (rs : List ReadableRecord)
    → Reads entries start_ts (label_names headers) history hs rs
    → Flagged false rs
    → Reads entries start_ts (label_names headers) history hs (flag_last headers rs)
      × Flagged (says_last headers) (flag_last headers rs)
flag_last-Outcome entries start_ts headers history hs rs reads flags =
    elim (Bool-cases (says_last headers)) [
      | inl e ↦
          rw e (
            mark_last-Reads entries start_ts (label_names headers) reads,
            mark_last-Flagged rs flags,
          )
      | inr e ↦ rw e (reads, flags)
    ]

-- If the records of a response over protocol v2 are read, with these entries and this start, and
-- all times are those of the system clock, they are read from the response's headers whose names
-- hold an entry's index and a number, each once: those of an entry with a smaller index first, and
-- those of one entry by rising times. Such a header gives its entry's record, at the start and its
-- number in microseconds, with the size, the content type and the labels that it says against the
-- header read last for the entry, or no record where the entry is not in the list or no length is
-- said. The last record, and no other, is flagged as the last, where the response says so.
pub build_records_v2-Reads :
    (entries : List Bytes) (start_ts : ℕ) (headers : Headers) (rs : List ReadableRecord)
    → All (IsTimely start_ts) (collect_headers headers)
    → build_records_v2 entries start_ts headers ≡ ok rs
    → (found : List ParsedHeader) × (hs : List ParsedHeader) × Collects headers found
      × Perm hs found
      × AreInOrder hs
      × Reads entries start_ts (label_names headers) [] hs rs
      × Flagged (says_last headers) rs
build_records_v2-Reads entries start_ts headers rs timely e =
    let hs = sort header_before (collect_headers headers) in
    let (found, read, whole) =
      flagged_inv headers _ rs (sym (build_records_v2_lem entries start_ts headers) ∙ e) in
    let (reads, flags) =
      read_headers-Reads entries start_ts (label_names headers) hs _ [] found
        (sort-All header_before (IsTimely start_ts) (collect_headers headers) timely)
        (replicate-Agrees (length entries)) read in
    let (marked, last) = flag_last-Outcome entries start_ts headers [] hs found reads flags in
    (
      collect_headers headers,
      hs,
      collect_headers-Collects headers,
      sort-perm header_before (collect_headers headers),
      IsSorted-AreInOrder hs
          (sort-IsSorted header_before header_before-IsStrictWeak (collect_headers headers)),
      subst (Reads entries start_ts (label_names headers) [] hs) whole marked,
      subst (Flagged (says_last headers)) whole last,
    )
