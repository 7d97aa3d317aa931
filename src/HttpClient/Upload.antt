-- ===== src/HttpClient/Upload.antt =====
-- Sending a batch's data through the content provider of `Post`: httplib asks for any number of
-- bytes behind those that were written, until the content length is reached.
use Prim.Native.Nat.{min}
use mathlib.Core.Path.{ap₂}
use reduct_cpp.Common.{
  ℕ, ◌-◌, ◌≤◌, ◌<◌, ◌≡◌, refl, sym, ap, ◌∙◌, Bool, false, Option, none, some, List, [], ◌∷◌, ◌++◌,
  Bytes, length, take, drop, is_empty, if◌then◌else◌, Except, ok, take-add, take_all, take-min,
  length-take, length-drop, arith,
}
use reduct_cpp.Batch.{Batch}
use reduct_cpp.Batch.Valid.{IsValid}
use reduct_cpp.Batch.Windows.{payload}
use reduct_cpp.Batch.Slices.{IsOrder, slice_ordered, length-payload-IsOrder}
use reduct_cpp.BatchV1.Process.{provider}
use reduct_cpp.HttpClient.{max_chunk_size, provide}

-- The bytes that can have been written: each step asks for `size` bytes more and writes the chunk
-- that the provider gives.
pub data Upload (callback : ℕ → ℕ → Except (Bool × Bytes)) : Bytes → Type 0 where
  start : Upload callback []
  write :
      {sent : Bytes} (size : ℕ) (chunk sent' : Bytes)
      → Upload callback sent
      → provide callback (length sent) size ≡ ok (some chunk)
      → sent' ≡ sent ++ chunk
      → Upload callback sent'

-- A chunk cut to its own length is the chunk.
pub take_cut : (m : ℕ) (xs : Bytes) → take (min (length (take m xs)) m) (take m xs) ≡ take m xs
take_cut m xs =
    ap (λ n. take n (take m xs))
      (let e : length (take m xs) ≡ min m (length xs) = length-take m xs in ground (arith, e))
    ∙ take_all (length (take m xs)) (take m xs) (omega arith)

pub take_prefix : (n : ℕ) {xs : Bytes} (ys : Bytes) → take n ys ≡ xs → take (length xs) ys ≡ xs
take_prefix n ys e = rw (sym e) (ap (λ k. take k ys) (length-take n ys) ∙ take-min n ys)

unfoldable pub given : Bytes → Except (Option Bytes) → Bytes
given c (ok (some chunk)) = chunk
given c _ = c

pub given_chunk : (c : Bytes) → given c (ok (if is_empty c then none else some c)) ≡ c
unfolding given
given_chunk [] = refl
given_chunk (_ ∷ _) = refl

is_empty_lem : (xs : Bytes) → 0 < length xs → is_empty xs ≡ false
is_empty_lem [] h = absurd (omega arith)
is_empty_lem (_ ∷ _) h = refl

-- What the provider gives for a batch: the bytes behind the offset, at most as many as asked for
-- and as a chunk may have, or nothing where none are left.
module _ (b : Batch) (v : IsValid b) (order : List ℕ) (perm : IsOrder b order) where
  pub provide_batch :
      (offset size : ℕ)
      → let chunk = take (min size max_chunk_size) (drop offset (payload b order)) in
        provide (provider b order) offset size ≡ ok (if is_empty chunk then none else some chunk)
  unfolding provide
  provide_batch offset size =
      rw
        (
          slice_ordered b v order offset (min size max_chunk_size) perm,
          take_cut (min size max_chunk_size) (drop offset (payload b order)),
        )
        refl

  written_chunk :
      (offset size : ℕ) {chunk : Bytes}
      → provide (provider b order) offset size ≡ ok (some chunk)
      → take (min size max_chunk_size) (drop offset (payload b order)) ≡ chunk
  unfolding given
  written_chunk offset size gave =
      let c = take (min size max_chunk_size) (drop offset (payload b order)) in
      sym (given_chunk c) ∙ ap (given c) (sym (provide_batch offset size) ∙ gave)

  write-prefix :
      (size : ℕ) {sent chunk : Bytes}
      → take (length sent) (payload b order) ≡ sent
      → take (min size max_chunk_size) (drop (length sent) (payload b order)) ≡ chunk
      → take (length (sent ++ chunk)) (payload b order) ≡ sent ++ chunk
  write-prefix size {sent} {chunk} prefix e = take_prefix _ _ (
      sym (take-add (length sent) (min size max_chunk_size) (payload b order))
      ∙ ap₂ (λ xs ys. xs ++ ys) prefix e)

  -- Whatever sizes are asked for in the steps of sending the data of a valid batch in an order of
  -- its records, what was written is a prefix of the records' data in that order.
  pub sent_prefix :
      {sent : Bytes} → Upload (provider b order) sent → take (length sent) (payload b order) ≡ sent
  sent_prefix start = refl
  sent_prefix (write {sent = sent} size chunk sent' before gave e) =
      rw e (write-prefix size (sent_prefix before) (written_chunk (length sent) size gave))

  -- Where the content length of a valid batch is reached, all data of its records was written, in
  -- the order of the request, whatever sizes were asked for on the way.
  pub sent_all :
      {sent : Bytes}
      → Upload (provider b order) sent
      → b.size ≤ length sent
      → sent ≡ payload b order
  sent_all {sent} up h =
      sym (sent_prefix up)
      ∙ take_all (length sent) (payload b order) (
          let e : length (payload b order) ≡ b.size = length-payload-IsOrder b v order perm in
          ground (arith, e))

  -- For a valid batch, asking for bytes behind an offset below the content length gives at least
  -- one, so sending never stops early.
  pub provide_progress :
      (offset size : ℕ)
      → 0 < size
      → offset < b.size
      → (chunk : Bytes) × (provide (provider b order) offset size ≡ ok (some chunk))
        × (0 < length chunk)
  provide_progress offset size asked inside =
      let c = take (min size max_chunk_size) (drop offset (payload b order)) in
      let counted : length c ≡ min (min size max_chunk_size) (b.size - offset) =
        length-take (min size max_chunk_size) (drop offset (payload b order))
        ∙ ap (min (min size max_chunk_size)) (
            length-drop offset (payload b order)
            ∙ ap (λ n. n - offset) (length-payload-IsOrder b v order perm)) in
      let some_byte : 0 < length c = ground (arith, counted) in
      (c, provide_batch offset size ∙ rw (is_empty_lem c some_byte) refl, some_byte)
