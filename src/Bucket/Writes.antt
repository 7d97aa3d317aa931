-- ===== src/Bucket/Writes.antt =====
-- Sending the whole data of one record (`WritableRecord::WriteAll`, by `Write`).
use Prim.Native.Nat.{min}
use mathlib.Core.Path.{ap₂}
use reduct_cpp.Common.{
  ℕ, ◌≤◌, ◌≡◌, refl, sym, ap, ◌∙◌, true, false, none, some, ◌++◌, Bytes, length, take, drop, ltb,
  is_empty, if◌then◌else◌, ok, take-add, take_all, length-take, arith,
}
use reduct_cpp.HttpClient.{max_chunk_size, provide}
use reduct_cpp.HttpClient.Upload.{Upload, start, write, take_cut, take_prefix, given, given_chunk}
use reduct_cpp.Bucket.Manage.{write_all, whole_data, substr}

-- What is given behind an offset in the text.
abbrev chunk_at : Bytes → ℕ → ℕ → Bytes
chunk_at text offset size = take (min size max_chunk_size) (drop offset text)

whole_data_inside :
    (text : Bytes) (offset size : ℕ)
    → offset ≤ length text
    → whole_data text offset size ≡ ok (true, take size (drop offset text))
unfolding whole_data substr
whole_data_inside text offset size inside =
    let in_range : ltb (length text) offset ≡ false = ground arith in
    rw (in_range, whole_data, substr) refl

provide_whole :
    (text : Bytes) (offset size : ℕ)
    → offset ≤ length text
    → provide (whole_data text) offset size
      ≡ ok (if is_empty (chunk_at text offset size) then none else some (chunk_at text offset size))
unfolding provide
provide_whole text offset size inside =
    rw
      (
        whole_data_inside text offset (min size max_chunk_size) inside,
        take_cut (min size max_chunk_size) (drop offset text),
      )
      refl

written_whole :
    (text : Bytes) (offset size : ℕ) {chunk : Bytes}
    → offset ≤ length text
    → provide (whole_data text) offset size ≡ ok (some chunk)
    → chunk_at text offset size ≡ chunk
unfolding given
written_whole text offset size inside gave =
    let c = chunk_at text offset size in
    sym (given_chunk c) ∙ ap (given c) (sym (provide_whole text offset size inside) ∙ gave)

length-prefix : (text sent : Bytes) → take (length sent) text ≡ sent → length sent ≤ length text
length-prefix text sent e = omega (arith, ap length e, length-take (length sent) text)

sent_whole :
    (text : Bytes) {sent : Bytes} → Upload (whole_data text) sent → take (length sent) text ≡ sent
sent_whole text start = refl
sent_whole text (write {sent = sent} size chunk sent' before gave e) =
    let prefix = sent_whole text before in
    rw e (
      take_prefix _ text (
        sym (take-add (length sent) (min size max_chunk_size) text)
        ∙ ap₂ (λ xs ys. xs ++ ys) prefix
            (written_whole text (length sent) size (length-prefix text sent prefix) gave)))

-- Where the content length of a record that is given as a whole is reached, what was written is
-- its data, whatever sizes were asked for on the way.
pub write_all_sent :
    (text : Bytes) {sent : Bytes}
    → Upload (write_all text).callback sent
    → (write_all text).content_length ≤ length sent
    → sent ≡ text
unfolding write_all
write_all_sent text {sent} up enough = sym (sent_whole text up) ∙ take_all (length sent) text enough
