-- ===== src/Stream/Empty.antt =====
-- What the loops for batches do at the edges: a record without bytes, and a response that ends
-- before the record does.
use reduct_cpp.Common.{
  ℕ, ◌+◌, ◌-◌, ◌<◌, ◌≡◌, refl, sym, ap, ◌∙◌, true, false, none, some, [], ◌∷◌, ◌++◌, append_assoc,
  append-nil, Bytes, length, ltb, leb, All, length-append, arith,
}
use reduct_cpp.Stream.{
  Queue, Kind, batch_v1, batch_v2, single, taken, look, returned, waiting, undefined, Arrivals,
  read_loop, append_chunk, read, read_all,
}
use reduct_cpp.Stream.Conserve.{flat}
use reduct_cpp.Stream.Looks.{IsBatch, IsData}

-- The queue with everything that arrives in all rounds.
pub arrive : Queue → Arrivals → Queue
arrive queue [] = queue
arrive queue (arrived ∷ rounds) = arrive (queue ++ arrived) rounds

look_empty :
    (kind : Kind) (c : ℕ) (chunk : Bytes) (queue : Queue)
    → IsBatch kind
    → look kind (0 - 0) (some (c ∷ chunk) ∷ queue) ≡ taken (some []) (some (c ∷ chunk) ∷ queue)
unfolding look
look_empty batch_v1 c chunk queue b =
    let e : ltb 0 (length (c ∷ chunk)) ≡ true = ground arith in rw e
look_empty batch_v2 c chunk queue b =
    let e : ltb 0 (length (c ∷ chunk)) ≡ true = ground arith in rw e
look_empty single c chunk queue b = absurd b

-- A record of a batch with no bytes, while the queue begins with bytes of the next record: the
-- loop takes nothing, calls nobody and never returns, however many rounds it runs.
pub read_all_empty_waits :
    (kind : Kind) (rounds : Arrivals) (c : ℕ) (chunk : Bytes) (queue : Queue)
    → IsBatch kind
    → read_all kind 0 false rounds (some (c ∷ chunk) ∷ queue)
      ≡ waiting 0 [] (arrive (some (c ∷ chunk) ∷ queue) rounds)
unfolding read_all read read_loop arrive
read_all_empty_waits kind [] c chunk queue b = refl
read_all_empty_waits kind (arrived ∷ rounds) c chunk queue b =
    rw (look_empty kind c chunk (queue ++ arrived) b, read_loop)
      (read_all_empty_waits kind rounds c chunk (queue ++ arrived) b)

-- The end mark behind fewer bytes than the record has.
short_loop_v2 :
    (size : ℕ) (rounds : Arrivals) (total : ℕ) (s : Bytes) (queue : Queue)
    → All IsData queue
    → total + length (flat queue) < size
    → length queue < length rounds
    → All (λ arrived. arrived ≡ []) rounds
    → read_loop batch_v2 append_chunk size rounds total s (queue ++ none ∷ [])
      ≡ returned (s ++ flat queue) []
unfolding read_loop look flat
short_loop_v2 size [] total s queue h lt rs quiet = absurd (omega arith)
short_loop_v2 size (arrived ∷ rounds) total s [] h lt rs (q, quiet) =
    rw q (ap (λ t. returned t []) (sym (append-nil s)))
short_loop_v2 size (arrived ∷ rounds) total s (none ∷ queue) h lt rs (q, quiet) = absurd h.0
short_loop_v2 size (arrived ∷ rounds) total s (some [] ∷ queue) h lt rs (q, quiet) = absurd h.0
short_loop_v2 size (arrived ∷ rounds) total s (some (c ∷ chunk) ∷ queue) (_, h) lt rs (q, quiet) =
    let counted = length-append chunk (flat queue) in
    let whole : ltb (size - total) (length (c ∷ chunk)) ≡ false = ground (arith, counted) in
    let open' : leb size (total + length (c ∷ chunk)) ≡ false = ground (arith, counted) in
    rw (q, append-nil (queue ++ none ∷ []), whole, open', read_loop)
      (short_loop_v2 size rounds (total + length (c ∷ chunk)) (s ++ c ∷ chunk) queue h
          (omega (arith, counted)) (omega arith) quiet
        ∙ ap (λ t. returned t []) (append_assoc s (c ∷ chunk) (flat queue)))

short_loop_v1 :
    (size : ℕ) (rounds : Arrivals) (total : ℕ) (s : Bytes) (queue : Queue)
    → All IsData queue
    → total + length (flat queue) < size
    → length queue < length rounds
    → All (λ arrived. arrived ≡ []) rounds
    → read_loop batch_v1 append_chunk size rounds total s (queue ++ none ∷ []) ≡ undefined
unfolding read_loop look flat
short_loop_v1 size [] total s queue h lt rs quiet = absurd (omega arith)
short_loop_v1 size (arrived ∷ rounds) total s [] h lt rs (q, quiet) = refl
short_loop_v1 size (arrived ∷ rounds) total s (none ∷ queue) h lt rs (q, quiet) = absurd h.0
short_loop_v1 size (arrived ∷ rounds) total s (some [] ∷ queue) h lt rs (q, quiet) = absurd h.0
short_loop_v1 size (arrived ∷ rounds) total s (some (c ∷ chunk) ∷ queue) (_, h) lt rs (q, quiet) =
    let counted = length-append chunk (flat queue) in
    let whole : ltb (size - total) (length (c ∷ chunk)) ≡ false = ground (arith, counted) in
    let open' : leb size (total + length (c ∷ chunk)) ≡ false = ground (arith, counted) in
    rw (q, append-nil (queue ++ none ∷ []), whole, open', read_loop)
      (short_loop_v1 size rounds (total + length (c ∷ chunk)) (s ++ c ∷ chunk) queue h
        (omega (arith, counted)) (omega arith) quiet)

-- A response that ends before the record has all its bytes, with nothing arriving behind the end
-- mark: the v2 loop returns the bytes that came, and the v1 loop reads the size of the end mark,
-- which is undefined behaviour.
pub read_all_short :
    (size : ℕ) (rounds : Arrivals) (queue : Queue)
    → All IsData queue
    → length (flat queue) < size
    → length queue < length rounds
    → All (λ arrived. arrived ≡ []) rounds
    → (read_all batch_v2 size false rounds (queue ++ none ∷ []) ≡ returned (flat queue) [])
      × (read_all batch_v1 size false rounds (queue ++ none ∷ []) ≡ undefined)
unfolding read_all read
read_all_short size rounds queue h lt rs quiet = (
  short_loop_v2 size rounds 0 [] queue h (omega arith) rs quiet,
  short_loop_v1 size rounds 0 [] queue h (omega arith) rs quiet,
)
