-- ===== src/Batch/Slices.antt =====
-- `Slice` reads a window of the records' data put one behind another.
use mathlib.Core.Path.{ap₂, subst}
use mathlib.Core.Logic.{∥∥₁_elim}
use mathlib.Core.List.{Perm, Permᴰ}
use mathlib.Core.List.Permᴰ
use native.Mathlib.Nat.{ℕ_set}
use reduct_cpp.Common.{
  ℕ, ◌+◌, ◌≤◌, ◌<◌, ◌≡◌, refl, sym, ap, ◌∙◌, inl, inr, zero, suc, none, some, List, [], ◌∷◌, Bytes,
  length, take, take_nil, drop, drop_all, range_from, All, leb, Except, ok, Bool-cases,
  length-append, arith,
}
use reduct_cpp.Batch.{Record, Batch, slice, fetch}
use reduct_cpp.Batch.Valid.{total_size, total_length, HoldsRecord, IsValid}
use reduct_cpp.Batch.Windows.{
  bytes_of, data_at, payload, flat_body, InRange, size_at, fetch_total, slice_body_lem,
  slice_order_lem,
}

Except_Bytes-set : IsSet (Except Bytes)
Except_Bytes-set = hlevel

-- An order in which each record stands once gives as many bytes as the batch counts.
sizes : List Record → List ℕ → ℕ
sizes rs [] = 0
sizes rs (i ∷ is) = size_at rs i + sizes rs is

sizes_shift :
    (r : Record) (rs : List Record) (k n : ℕ)
    → sizes (r ∷ rs) (range_from (suc k) n) ≡ sizes rs (range_from k n)
unfolding sizes
sizes_shift r rs k zero = refl
sizes_shift r rs k (suc n) = ap (λ t. size_at rs k + t) (sizes_shift r rs (suc k) n)

sizes_range : (rs : List Record) → sizes rs (range_from 0 (length rs)) ≡ total_size rs
unfolding sizes total_size
sizes_range [] = refl
sizes_range (r ∷ rs) = ap (λ t. r.size + t) (sizes_shift r rs 0 (length rs) ∙ sizes_range rs)

sizes-permᴰ : (rs : List Record) {is js : List ℕ} → Permᴰ is js → sizes rs is ≡ sizes rs js
unfolding sizes
sizes-permᴰ rs Permᴰ.nil = refl
sizes-permᴰ rs (Permᴰ.cons e p) = ap₂ (λ i t. size_at rs i + t) e (sizes-permᴰ rs p)
sizes-permᴰ rs (Permᴰ.swap {l = l} e f) = rw (e, f) (omega arith)
sizes-permᴰ rs (Permᴰ.trans p q) = sizes-permᴰ rs p ∙ sizes-permᴰ rs q

InRange-permᴰ : (b : Batch) {is js : List ℕ} → Permᴰ is js → InRange b is → InRange b js
InRange-permᴰ b Permᴰ.nil h = tt
InRange-permᴰ b (Permᴰ.cons e p) (lt, h) =
    (subst (λ i. i < length b.records) e lt, InRange-permᴰ b p h)
InRange-permᴰ b (Permᴰ.swap e f) (lt, (lt', h)) =
    (subst (λ i. i < length b.records) f lt', (subst (λ i. i < length b.records) e lt, h))
InRange-permᴰ b (Permᴰ.trans p q) h = InRange-permᴰ b q (InRange-permᴰ b p h)

range-InRange : (m k n : ℕ) → k + n ≤ m → All (λ i. i < m) (range_from k n)
range-InRange m k zero h = tt
range-InRange m k (suc n) h = (omega arith, range-InRange m (suc k) n (omega arith))

length-payload :
    (b : Batch) (order : List ℕ)
    → All (HoldsRecord b.body) b.records
    → InRange b order
    → length (payload b order) ≡ sizes b.records order
unfolding payload sizes data_at
length-payload b [] v h = refl
length-payload b (idx ∷ rest) v (lt, h) =
    let (found, e, counted) = fetch_total b.body b.records b.size idx v lt in
    length-append (bytes_of (fetch b idx)) (payload b rest)
    ∙ ap₂ (λ m n. m + n) (ap (λ f. length (bytes_of f)) e ∙ counted) (length-payload b rest v h)

length-flat_body : (ds : List Bytes) → length (flat_body ds) ≡ total_length ds
unfolding flat_body total_length
length-flat_body [] = refl
length-flat_body (d ∷ ds) = omega (arith, length-append d (flat_body ds), length-flat_body ds)

-- A permutation of the indices of all records.
abbrev pub IsOrder : Batch → List ℕ → Type 0
IsOrder b order = Perm order (range_from 0 (length b.records))

module _ (b : Batch) (v : IsValid b) where
  pub order-InRange :
      {order : List ℕ} → Permᴰ order (range_from 0 (length b.records)) → InRange b order
  order-InRange d =
      InRange-permᴰ b (Permᴰ.symm d)
        (range-InRange (length b.records) 0 (length b.records) (omega arith))

  pub order-length :
      {order : List ℕ}
      → Permᴰ order (range_from 0 (length b.records))
      → length (payload b order) ≡ b.size
  order-length {order} d =
      length-payload b order v.held (order-InRange d)
      ∙ sizes-permᴰ b.records d
      ∙ sizes_range b.records
      ∙ sym v.counted

  pub length-payload-IsOrder :
      (order : List ℕ) → IsOrder b order → length (payload b order) ≡ b.size
  length-payload-IsOrder order perm = ∥∥₁_elim perm (ℕ_set _ _) order-length

  -- For a valid batch and no order, `Slice` reads a window of the whole body.
  pub slice_unordered :
      (offset size : ℕ) → slice b none offset size ≡ ok (take size (drop offset (flat_body b.body)))
  unfolding slice
  slice_unordered offset size = elim (Bool-cases (leb b.size offset)) [
    | inl past ↦ rw (
      past,
      drop_all offset (flat_body b.body) (ground (arith, length-flat_body b.body, v.stored)),
      take_nil {A = ℕ} size,
    )
    | inr inside ↦ rw inside (ap ok (slice_body_lem b.body _))
  ]

  slice_ordered-permᴰ :
      {order : List ℕ} (offset size : ℕ)
      → Permᴰ order (range_from 0 (length b.records))
      → slice b (some order) offset size ≡ ok (take size (drop offset (payload b order)))
  unfolding slice
  slice_ordered-permᴰ {order} offset size d = elim (Bool-cases (leb b.size offset)) [
    | inl past ↦ rw (
      past,
      drop_all offset (payload b order) (ground (arith, order-length d)),
      take_nil {A = ℕ} size,
    )
    | inr inside ↦ rw inside (slice_order_lem b order _ v.held (order-InRange d))
  ]

  -- For a valid batch and an order in which each of its records stands once, `Slice` throws nothing
  -- and reads a window of their data in that order.
  pub slice_ordered :
      (order : List ℕ) (offset size : ℕ)
      → IsOrder b order
      → slice b (some order) offset size ≡ ok (take size (drop offset (payload b order)))
  slice_ordered order offset size perm =
      ∥∥₁_elim perm (Except_Bytes-set _ _) (slice_ordered-permᴰ offset size)
