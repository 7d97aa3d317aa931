-- ===== src/Stream.antt =====
-- The member `Read` of a record: the loop that takes the record's bytes from the queue of chunks
-- that the records of one response share. It stands three times in the sources: for v1 and v2
-- batches (src/reduct/internal/batch_v1.cc, batch_v2.cc) and for a single record
-- (src/reduct/bucket.cc); `ReadAll` is in src/reduct/bucket.h.
-- A chunk is `none` for the end of the response. The loop runs beside the thread that receives the
-- response, so a run is given the chunks that arrive before each round; a run that is still in the
-- loop when the list of rounds ends is `waiting`.
pub mod Conserve
pub mod Looks
pub mod Finish
pub mod Empty
pub mod Turns
pub mod Transfer
mod Tests
use reduct_cpp.Common.{
  ℕ, ◌+◌, ◌-◌, Bool, true, false, Option, none, some, List, [], ◌∷◌, ◌++◌, Bytes, length, take,
  drop, ltb, leb, is_empty, if◌then◌else◌,
}

-- `std::deque<std::optional<std::string>>`
abbrev pub Queue : Type 0
Queue = List (Option Bytes)

-- Which of the three loops.
pub data Kind : Type 0 where
  batch_v1 batch_v2 single : Kind

-- What one look at the queue under the lock gives: a chunk and the queue that is left, or
-- undefined behaviour.
pub data Look : Type 0 where
  taken : Option Bytes → Queue → Look
  broken : Look

-- A chunk longer than what the record still wants is cut, and its rest is put back.
abbrev pub cut_chunk : ℕ → Bytes → Queue → Look
cut_chunk want chunk queue =
    if ltb want (length chunk)
    then taken (some (take want chunk)) (some (drop want chunk) ∷ queue)
    else taken (some chunk) queue

-- The block under the lock. An empty queue leaves the empty chunk. The v1 loop reads the size of
-- the end mark, which has none.
pub look : Kind → ℕ → Queue → Look
look kind want [] = taken (some []) []
look single want (chunk ∷ queue) = taken chunk queue
look batch_v2 want (none ∷ queue) = taken none queue
look batch_v2 want (some chunk ∷ queue) = cut_chunk want chunk queue
look batch_v1 want (none ∷ queue) = broken
look batch_v1 want (some chunk ∷ queue) = cut_chunk want chunk queue

-- What the caller sees: its own state after the callbacks and the queue that is left.
pub data Outcome (S : Type 0) : Type 0 where
  returned : S → Queue → Outcome S
  waiting : ℕ → S → Queue → Outcome S
  undefined : Outcome S

-- The chunks that arrive before each round.
abbrev pub Arrivals : Type 0
Arrivals = List Queue

-- Whether the loop ends once `total` bytes have been handed over: the single loop goes on to the
-- end mark.
abbrev pub is_complete : Kind → ℕ → ℕ → Bool
is_complete single size total = false
is_complete batch_v1 size total = leb size total
is_complete batch_v2 size total = leb size total

module _ {S : Type 0} (kind : Kind) (callback : S → Bytes → S × Bool) (size : ℕ) where
  pub read_loop : Arrivals → ℕ → S → Queue → Outcome S
  unfolding look
  read_loop [] total s queue = waiting total s queue
  read_loop (arrived ∷ rounds) total s queue = elim (look kind (size - total) (queue ++ arrived)) [
    | broken ↦ undefined
    | taken none queue' ↦ returned s queue'
    | taken (some []) queue' ↦ read_loop rounds total s queue'
    | taken (some (c ∷ chunk)) queue' ↦
        let total' = total + length (c ∷ chunk) in
        let next = callback s (c ∷ chunk) in
        elim next.1 [
          | false ↦ returned next.0 queue'
          | true ↦ elim (is_complete kind size total') [
            | true ↦ returned next.0 queue'
            | false ↦ read_loop rounds total' next.0 queue'
          ]
        ]
  ]

  -- `record.Read(callback)`; a record read by HEAD has no data.
  pub read : Bool → Arrivals → S → Queue → Outcome S
  unfolding read_loop
  read head rounds s queue = if head then returned s queue else read_loop rounds 0 s queue

-- The callback of `ReadAll`.
abbrev pub append_chunk : Bytes → Bytes → Bytes × Bool
append_chunk bytes chunk = (bytes ++ chunk, true)

-- `ReadAll`
pub read_all : Kind → ℕ → Bool → Arrivals → Queue → Outcome Bytes
unfolding read
read_all kind size head rounds queue = read kind append_chunk size head rounds [] queue
