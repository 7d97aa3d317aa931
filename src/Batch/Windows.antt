-- ===== src/Batch/Windows.antt =====
-- The loops of `Slice`: what each still gives, as a window of the data that is left.
use reduct_cpp.Common.{
  ℕ, ◌-◌, ◌<◌, min, ◌≡◌, sym, ap, ◌∙◌, true, inl, inr, Option, none, some, List, zero, suc, [], ◌∷◌,
  ◌++◌, append_assoc, append-nil, Bytes, length, take, drop, All, ltb, ◌==◌, Except, ok, thrown,
  Bool-cases, Option-cases, take-append, take-min, take_nil, drop_all, drop-append_le,
  drop-append_ge, length-drop, arith,
}
use reduct_cpp.Batch.{Record, Batch, Progress, process_data, slice_body, fetch, slice_order}
use reduct_cpp.Batch.Valid.{Holds, HoldsRecord}

abbrev pub bytes_of : Except (Option Bytes) → Bytes
bytes_of (ok (some bytes)) = bytes
bytes_of (ok none) = []
bytes_of thrown = []

-- The bytes of the record at an index; nothing where there is none.
unfoldable pub data_at : Batch → ℕ → Bytes
data_at b idx = bytes_of (fetch b idx)

-- The data of the records in the given order, put one behind another.
unfoldable pub payload : Batch → List ℕ → Bytes
payload b [] = []
payload b (idx ∷ rest) = data_at b idx ++ payload b rest

-- The whole of `body_` put one behind another.
unfoldable pub flat_body : List Bytes → Bytes
flat_body [] = []
flat_body (d ∷ ds) = d ++ flat_body ds

-- What a loop over `window` is still to give, with what it has.
abbrev pub outcome : Progress → Bytes → Bytes
outcome p window = p.result ++ take p.size (drop p.offset window)

-- Taking at most what is there, and then from what follows.
take_window :
    (size offset : ℕ) (bytes rest : Bytes)
    → offset < length bytes
    → take (min size (length bytes - offset)) (drop offset bytes)
        ++ take (size - min size (length bytes - offset)) rest
      ≡ take size (drop offset (bytes ++ rest))
take_window size offset bytes rest h =
    rw
      (
        drop-append_le offset bytes rest (omega arith),
        take-append size (drop offset bytes) rest,
        ← length-drop offset bytes,
        take-min size (drop offset bytes),
      )
      (ap (λ k. take size (drop offset bytes) ++ take k rest) (omega arith))

-- One step hands on the rest of the window.
process_data_lem :
    (bytes rest : Bytes) (p : Progress)
    → outcome (process_data bytes p) rest ≡ outcome p (bytes ++ rest)
unfolding process_data
process_data_lem bytes rest p = elim (Bool-cases (ltb p.offset (length bytes))) [
  | inl inside ↦
      rw (inside, append_assoc)
        (ap (λ w. p.result ++ w) (take_window p.size p.offset bytes rest (ground arith)))
  | inr past ↦ rw past (
      ap (λ w. p.result ++ take p.size w) (sym (drop-append_ge p.offset bytes rest (ground arith))))
]

outcome_done : (p : Progress) (window : Bytes) → (p.size == 0) ≡ true → outcome p window ≡ p.result
outcome_done p window h =
    let e : p.size ≡ 0 = ground arith in
    ap (λ k. p.result ++ take k (drop p.offset window)) e ∙ append-nil p.result

outcome_end : (p : Progress) → outcome p [] ≡ p.result
outcome_end p =
    rw (drop_all {A = ℕ} p.offset [] (omega arith), take_nil {A = ℕ} p.size) (append-nil p.result)

pub slice_body_lem : (ds : List Bytes) (p : Progress) → slice_body ds p ≡ outcome p (flat_body ds)
unfolding slice_body flat_body
slice_body_lem [] p = sym (outcome_end p)
slice_body_lem (d ∷ ds) p = elim (Bool-cases ((process_data d p).size == 0)) [
  | inl done ↦
      rw (done, slice_body)
        (sym (outcome_done _ (flat_body ds) done) ∙ process_data_lem d (flat_body ds) p)
  | inr more ↦
      rw (more, slice_body)
        (slice_body_lem ds (process_data d p) ∙ process_data_lem d (flat_body ds) p)
]

abbrev pub InRange : Batch → List ℕ → Type 0
InRange b = All (λ i. i < length b.records)

-- The size of the record at an index.
abbrev pub size_at : List Record → ℕ → ℕ
size_at [] i = 0
size_at (r ∷ rs) zero = r.size
size_at (r ∷ rs) (suc i) = size_at rs i

-- In a valid batch an index in range is fetched, with as many bytes as the record's size.
pub fetch_total :
    (body : List Bytes) (rs : List Record) (size i : ℕ)
    → All (HoldsRecord body) rs
    → i < length rs
    → (found : Option Bytes) × (fetch (record { records = rs; body = body; size = size }) i
        ≡ ok found)
      × (length (bytes_of (ok found)) ≡ size_at rs i)
unfolding fetch
fetch_total body [] size i h lt = absurd (omega arith)
fetch_total body (r ∷ rs) size zero (p, h) lt = elim (Option-cases r.data_index) [
  | inl absent ↦ let e : r.size ≡ 0 = (rw absent at p) in (none, rw (absent, fetch), sym e)
  | inr (i, at) ↦
      let q : Holds body (some i) r.size = (rw at at p) in (some q.0, rw (at, q.1, fetch), sym q.2)
]
fetch_total body (r ∷ rs) size (suc i) (p, h) lt = fetch_total body rs size i h (omega arith)

slice_order_step :
    (b : Batch) (idx : ℕ) (rest : List ℕ) (p : Progress) (found : Option Bytes)
    → fetch b idx ≡ ok found
    → ((q : Progress) → slice_order b rest q ≡ ok (outcome q (payload b rest)))
    → slice_order b (idx ∷ rest) p ≡ ok (outcome p (payload b (idx ∷ rest)))
unfolding slice_order payload data_at
slice_order_step b idx rest p none e ih = rw (e, slice_order) (ih p)
slice_order_step b idx rest p (some bytes) e ih =
    let q = process_data bytes p in
    let handed = ap ok (process_data_lem bytes (payload b rest) p) in
    elim (Bool-cases (q.size == 0)) [
      | inl done ↦
          rw (e, done, slice_order) (ap ok (sym (outcome_done q (payload b rest) done)) ∙ handed)
      | inr more ↦ rw (e, more, slice_order) (ih q ∙ handed)
    ]

pub slice_order_lem :
    (b : Batch) (order : List ℕ) (p : Progress)
    → All (HoldsRecord b.body) b.records
    → InRange b order
    → slice_order b order p ≡ ok (outcome p (payload b order))
unfolding slice_order payload
slice_order_lem b [] p v h = ap ok (sym (outcome_end p))
slice_order_lem b (idx ∷ rest) p v (lt, h) =
    let (found, e, _) = fetch_total b.body b.records b.size idx v lt in
    slice_order_step b idx rest p found e (λ q. slice_order_lem b rest q v h)
