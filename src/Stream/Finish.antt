-- ===== src/Stream/Finish.antt =====
-- A read of a record of a batch takes exactly the record's bytes once they are there.
use mathlib.Core.Path.{ap₂, subst}
use native.Mathlib.Nat.{sub-zero}
use reduct_cpp.Common.{
  ℕ, suc, ◌+◌, ◌-◌, ◌≤◌, ◌<◌, min, ◌≡◌, sym, ap, ◌∙◌, true, false, none, some, [], ◌∷◌, ◌++◌,
  append_assoc, append-nil, Bytes, length, take, drop, leb, inl, inr, All, All-append, Bool-cases,
  take-append, take-append_le, take_all, drop-append_le, drop-append_ge, drop_all, length-take,
  length-append, arith,
}
use reduct_cpp.Stream.{
  Queue, Kind, taken, look, Outcome, returned, Arrivals, read_loop, append_chunk, read, read_all,
}
use reduct_cpp.Stream.Conserve.{flat, flat_all, flat-append}
use reduct_cpp.Stream.Looks.{IsBatch, IsData, look-IsData, is_complete_batch}

-- The record's bytes are handed over, and those behind them stay in the queue with what arrived
-- meanwhile.
abbrev pub Finished : ℕ → Bytes → Queue → Arrivals → Outcome Bytes → Type 0
Finished want s queue rounds out =
    (k : ℕ) × (left : Queue) × (out ≡ returned (s ++ take want (flat queue)) left)
    × (flat left ≡ drop want (flat queue) ++ flat_all (take k rounds))
    × All IsData left

module _ (want : ℕ) (front back more whole : Bytes) where
  take_on :
      length front ≤ want
      → whole ≡ back ++ more
      → want - length front ≤ length back
      → front ++ take (want - length front) whole ≡ take want (front ++ back)
  take_on h e f = rw (
    e,
    take-append_le (want - length front) back more f,
    take-append want front back,
    take_all want front h,
  )

  drop_on :
      length front ≤ want
      → whole ≡ back ++ more
      → want - length front ≤ length back
      → drop (want - length front) whole ≡ drop want (front ++ back) ++ more
  drop_on h e f =
      rw (e, drop-append_le (want - length front) back more f, drop-append_ge want front back h)

module _ (kind : Kind) (batch : IsBatch kind) (size : ℕ) where
  -- The chunk completes the record.
  finish_now :
      (arrived : Queue) (rounds : Arrivals) (total c d : ℕ) (s chunk ds : Bytes)
      (queue left : Queue)
      → look kind (size - total) (some (c ∷ chunk) ∷ (queue ++ arrived))
        ≡ taken (some (d ∷ ds)) left
      → d ∷ ds ≡ take (size - total) (c ∷ chunk)
      → flat left ≡ drop (size - total) (c ∷ chunk) ++ flat (queue ++ arrived)
      → All IsData left
      → leb size (total + length (d ∷ ds)) ≡ true
      → size - total ≤ length (c ∷ chunk)
      → Finished
          (size - total)
          s
          (some (c ∷ chunk) ∷ queue)
          (arrived ∷ rounds)
          (read_loop kind append_chunk size (arrived ∷ rounds) total s (some (c ∷ chunk) ∷ queue))
  unfolding read_loop flat flat_all
  finish_now arrived rounds total c d s chunk ds queue left e t f h full fits = (
    1,
    left,
    rw (e, is_complete_batch kind size (total + length (d ∷ ds)) batch, full, read_loop)
        (ap (λ w. returned (s ++ w) left)
          (t ∙ sym (take-append_le (size - total) (c ∷ chunk) (flat queue) fits))),
    f
        ∙ ap (λ w. drop (size - total) (c ∷ chunk) ++ w) (flat-append queue arrived)
        ∙ sym (append_assoc (drop (size - total) (c ∷ chunk)) (flat queue) (flat arrived))
        ∙ ap₂ (λ v w. v ++ w) (sym (drop-append_le (size - total) (c ∷ chunk) (flat queue) fits))
            (sym (append-nil (flat arrived))),
    h,
  )

  -- The chunk is handed over whole and the loop goes on.
  finish_later :
      (arrived : Queue) (rounds : Arrivals) (total c d : ℕ) (s chunk ds : Bytes)
      (queue left : Queue)
      → look kind (size - total) (some (c ∷ chunk) ∷ (queue ++ arrived))
        ≡ taken (some (d ∷ ds)) left
      → d ∷ ds ≡ c ∷ chunk
      → flat left ≡ flat queue ++ flat arrived
      → leb size (total + length (d ∷ ds)) ≡ false
      → size - total ≤ length (c ∷ chunk) + length (flat queue)
      → Finished
          (size - (total + length (d ∷ ds)))
          (s ++ d ∷ ds)
          left
          rounds
          (read_loop kind append_chunk size rounds (total + length (d ∷ ds)) (s ++ d ∷ ds) left)
      → Finished
          (size - total)
          s
          (some (c ∷ chunk) ∷ queue)
          (arrived ∷ rounds)
          (read_loop kind append_chunk size (arrived ∷ rounds) total s (some (c ∷ chunk) ∷ queue))
  unfolding read_loop flat flat_all
  finish_later arrived rounds total c d s chunk ds queue left e t f open' fits (k, left', r, g, h) =
      let less : size - (total + length (d ∷ ds)) ≡ size - total - length (d ∷ ds) = omega arith in
      let short : length (d ∷ ds) ≤ size - total = ground arith in
      let same : length (d ∷ ds) ≡ length (c ∷ chunk) = ap length t in
      let enough : size - total - length (d ∷ ds) ≤ length (flat queue) = omega arith in
      (
        suc k,
        left',
        rw (e, is_complete_batch kind size (total + length (d ∷ ds)) batch, open', read_loop)
            (r
              ∙ ap (λ w. returned w left')
                  (append_assoc s (d ∷ ds) _
                    ∙ ap (λ w. s ++ w)
                        (ap (λ n. (d ∷ ds) ++ take n (flat left)) less
                          ∙ take_on (size - total) (d ∷ ds) (flat queue) (flat arrived) (flat left)
                              short f enough
                          ∙ ap (λ w. take (size - total) (w ++ flat queue)) t))),
        g
            ∙ ap (λ w. w ++ flat_all (take k rounds))
                (ap (λ n. drop n (flat left)) less
                  ∙ drop_on (size - total) (d ∷ ds) (flat queue) (flat arrived) (flat left) short f
                      enough
                  ∙ ap (λ w. drop (size - total) (w ++ flat queue) ++ flat arrived) t)
            ∙ append_assoc _ (flat arrived) _,
        h,
      )

  pub read_loop_finishes :
      (rounds : Arrivals) (total : ℕ) (s : Bytes) (queue : Queue)
      → All IsData queue
      → All (All IsData) rounds
      → total < size
      → size - total ≤ length (flat queue)
      → size - total ≤ length rounds
      → Finished
          (size - total)
          s
          queue
          rounds
          (read_loop kind append_chunk size rounds total s queue)
  unfolding flat
  read_loop_finishes [] total s queue h hs lt enough rs = absurd (omega arith)
  read_loop_finishes (arrived ∷ rounds) total s [] h hs lt enough rs = absurd (omega arith)
  read_loop_finishes (arrived ∷ rounds) total s (none ∷ queue) h hs lt enough rs = absurd h.0
  read_loop_finishes (arrived ∷ rounds) total s (some [] ∷ queue) h hs lt enough rs = absurd h.0
  read_loop_finishes (arrived ∷ rounds) total s (some (c ∷ chunk) ∷ queue) (_, h) (ha, hs) lt enough
        rs =
      let (d, ds, left, e, t, f, hl) =
        look-IsData kind (size - total) c chunk (queue ++ arrived) batch (omega arith)
          (All-append IsData queue arrived h ha) in
      let counted : length (d ∷ ds) ≡ min (size - total) (length (c ∷ chunk)) =
        ap length t ∙ length-take (size - total) (c ∷ chunk) in
      let room : size - total ≤ length (c ∷ chunk) + length (flat queue) =
        omega (arith, length-append chunk (flat queue)) in
      elim (Bool-cases (leb size (total + length (d ∷ ds)))) [
        | inl full ↦
            finish_now arrived rounds total c d s chunk ds queue left e t f hl full (ground arith)
        | inr open' ↦
            let whole : length (c ∷ chunk) ≤ size - total = ground arith in
            let t' : d ∷ ds ≡ c ∷ chunk = t ∙ take_all (size - total) (c ∷ chunk) whole in
            let f' : flat left ≡ flat queue ++ flat arrived =
              f
              ∙ ap (λ w. w ++ flat (queue ++ arrived)) (drop_all (size - total) (c ∷ chunk) whole)
              ∙ flat-append queue arrived in
            let counted' : length (flat left) ≡ length (flat queue) + length (flat arrived) =
              ap length f' ∙ length-append (flat queue) (flat arrived) in
            finish_later arrived rounds total c d s chunk ds queue left e t' f' open' room (
              read_loop_finishes rounds (total + length (d ∷ ds)) (s ++ d ∷ ds) left hl hs
                (ground arith) (omega arith) (omega arith))
      ]

-- A record of a batch with bytes of its own, whose bytes are all in the queue: the read returns
-- after at most as many rounds as it has bytes, it gives exactly the first `size` bytes, and the
-- bytes behind them stay for the records that follow, in their order.
pub read_all_finishes :
    (kind : Kind) (size : ℕ) (rounds : Arrivals) (queue : Queue)
    → IsBatch kind
    → 0 < size
    → All IsData queue
    → All (All IsData) rounds
    → size ≤ length (flat queue)
    → size ≤ length rounds
    → Finished size [] queue rounds (read_all kind size false rounds queue)
unfolding read_all read
read_all_finishes kind size rounds queue batch w h hs enough rs =
    subst (λ n. Finished n [] queue rounds (read_loop kind append_chunk size rounds 0 [] queue))
      (sub-zero size)
      (read_loop_finishes kind batch size rounds 0 [] queue h hs w (omega arith) (omega arith))
