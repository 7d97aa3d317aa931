-- ===== src/Stream/Transfer.antt =====
-- A batch that is sent and read again: the data of its records, through chunks of any lengths.
use reduct_cpp.Common.{
  ℕ, ◌≤◌, ◌<◌, ◌≡◌, refl, sym, ap, ◌∙◌, Option, some, List, [], ◌∷◌, ◌++◌, map, Bytes, length, take,
  drop, All, take-append_le, take_all, drop-append_le, drop_all, length-append, range_from, arith,
}
use mathlib.Core.List.{Permᴰ}
use mathlib.Core.Path.{ap₂}
use mathlib.Core.Logic.{∥∥₁_elim}
use reduct_cpp.Batch.{Batch}
use reduct_cpp.Batch.Valid.{IsValid}
use reduct_cpp.Batch.Windows.{bytes_of, data_at, payload, size_at, fetch_total, InRange}
use reduct_cpp.Batch.Slices.{IsOrder, order-InRange, order-length}
use reduct_cpp.Stream.{Queue, Kind, Arrivals}
use reduct_cpp.Stream.Conserve.{flat}
use reduct_cpp.Stream.Looks.{IsBatch, IsData}
use reduct_cpp.Stream.Turns.{read_in_turn, read_in_turn_lem, pieces, sum}

-- A first piece is cut off exactly.
take-front : (xs ys : Bytes) → take (length xs) (xs ++ ys) ≡ xs
take-front xs ys =
    take-append_le (length xs) xs ys (omega arith) ∙ take_all (length xs) xs (omega arith)

drop-front : (xs ys : Bytes) → drop (length xs) (xs ++ ys) ≡ ys
drop-front xs ys =
    drop-append_le (length xs) xs ys (omega arith)
    ∙ ap (λ t. t ++ ys) (drop_all (length xs) xs (omega arith))

-- The sizes of the records in the given order.
abbrev pub record_sizes : Batch → List ℕ → List ℕ
record_sizes b order = map (size_at b.records) order

module _ (b : Batch) (v : IsValid b) where
  length-data_at :
      (idx : ℕ) → idx < length b.records → length (data_at b idx) ≡ size_at b.records idx
  unfolding data_at
  length-data_at idx lt =
      let (found, e, counted) = fetch_total b.body b.records b.size idx v.held lt in
      ap (λ f. length (bytes_of f)) e ∙ counted

  pieces-payload :
      (order : List ℕ)
      → InRange b order
      → pieces (record_sizes b order) (payload b order) ≡ map (data_at b) order
  unfolding payload
  pieces-payload [] h = refl
  pieces-payload (idx ∷ rest) (lt, h) = rw (sym (length-data_at idx lt)) (
      ap₂ ◌∷◌ (take-front (data_at b idx) (payload b rest)) (
        ap (pieces (record_sizes b rest)) (drop-front (data_at b idx) (payload b rest))
        ∙ pieces-payload rest h))

  sum-payload :
      (order : List ℕ) → InRange b order → sum (record_sizes b order) ≡ length (payload b order)
  unfolding payload
  sum-payload [] h = refl
  sum-payload (idx ∷ rest) (lt, h) = omega (
    arith,
    length-data_at idx lt,
    sum-payload rest h,
    length-append (data_at b idx) (payload b rest),
  )

  module _ (kind : Kind) (rounds : Arrivals) (queue : Queue) (batch : IsBatch kind) (order : List ℕ)
      (pos : All (λ n. 0 < n) (record_sizes b order)) (data_ : All IsData queue)
      (quiet : All (λ arrived. arrived ≡ []) rounds) (arrived_all : flat queue ≡ payload b order)
      (long : b.size ≤ length rounds) where
    transfer-permᴰ :
        Permᴰ order (range_from 0 (length b.records))
        → read_in_turn kind (record_sizes b order) rounds queue ≡ some (map (data_at b) order)
    transfer-permᴰ d =
        let inside = order-InRange b v d in
        let whole : length (flat queue) ≡ b.size = ap length arrived_all ∙ order-length b v d in
        let total = sum-payload order inside in
        let same = ap length arrived_all in
        read_in_turn_lem kind (record_sizes b order) rounds queue batch pos data_ quiet
          (ground (arith, total, same)) (ground (arith, whole))
        ∙ ap (λ t. some (pieces (record_sizes b order) t)) arrived_all
        ∙ ap some (pieces-payload order inside)

    option_set : IsSet (Option (List Bytes))
    option_set = hlevel

    -- The records of a valid batch, each with at least one byte, whose data come back in the order
    -- in which they were sent: read in turn, each record gives exactly the data that was put into
    -- the batch for it, however the response was cut into chunks.
    pub read_in_turn-payload :
        IsOrder b order
        → read_in_turn kind (record_sizes b order) rounds queue ≡ some (map (data_at b) order)
    read_in_turn-payload perm = ∥∥₁_elim perm (option_set _ _) transfer-permᴰ
