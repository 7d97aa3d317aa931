-- ===== src/Stream/Turns.antt =====
-- Reading the records of one response in turn, as the callback does that calls `ReadAll` of each.
use mathlib.Core.Option
use reduct_cpp.Common.{
  ℕ, zero, suc, ◌+◌, ◌-◌, ◌≤◌, ◌<◌, ◌≡◌, refl, ap, ◌∙◌, false, Option, none, some, List, [], ◌∷◌,
  ◌++◌, append-nil, Bytes, length, take, drop, All, length-drop, arith,
}
use reduct_cpp.Stream.{Queue, Kind, Outcome, returned, waiting, undefined, Arrivals, read_all}
use reduct_cpp.Stream.Conserve.{flat, flat_all}
use reduct_cpp.Stream.Looks.{IsBatch, IsData}
use reduct_cpp.Stream.Finish.{read_all_finishes}

abbrev then_read : Outcome Bytes → (Queue → Option (List Bytes)) → Option (List Bytes)
then_read (returned s left) rest = Option.map (◌∷◌ s) (rest left)
then_read (waiting total s left) rest = none
then_read undefined rest = none

-- `ReadAll` of records of the given sizes, one after the other; none where one does not return.
unfoldable pub read_in_turn : Kind → List ℕ → Arrivals → Queue → Option (List Bytes)
read_in_turn kind [] rounds queue = some []
read_in_turn kind (size ∷ sizes) rounds queue =
    then_read (read_all kind size false rounds queue) (λ left. read_in_turn kind sizes rounds left)

-- The pieces of the given sizes.
abbrev pub pieces : List ℕ → Bytes → List Bytes
pieces [] bytes = []
pieces (n ∷ sizes) bytes = take n bytes ∷ pieces sizes (drop n bytes)

abbrev pub sum : List ℕ → ℕ
sum [] = 0
sum (n ∷ sizes) = n + sum sizes

quiet_flat :
    (k : ℕ) (rounds : Arrivals)
    → All (λ arrived. arrived ≡ []) rounds
    → flat_all (take k rounds) ≡ []
unfolding flat_all flat
quiet_flat zero rounds h = refl
quiet_flat (suc k) [] h = refl
quiet_flat (suc k) (arrived ∷ rounds) (q, h) = rw q (quiet_flat k rounds h)

quiet_IsData : (rounds : Arrivals) → All (λ arrived. arrived ≡ []) rounds → All (All IsData) rounds
quiet_IsData [] h = tt
quiet_IsData (arrived ∷ rounds) (q, h) = (rw q tt, quiet_IsData rounds h)

-- For records of a batch with at least one byte each, whose bytes are all in the queue in any
-- chunks: reading them in turn gives each record its own bytes, the next `size` bytes of the
-- response.
pub read_in_turn_lem :
    (kind : Kind) (sizes : List ℕ) (rounds : Arrivals) (queue : Queue)
    → IsBatch kind
    → All (λ n. 0 < n) sizes
    → All IsData queue
    → All (λ arrived. arrived ≡ []) rounds
    → sum sizes ≤ length (flat queue)
    → length (flat queue) ≤ length rounds
    → read_in_turn kind sizes rounds queue ≡ some (pieces sizes (flat queue))
unfolding read_in_turn
read_in_turn_lem kind [] rounds queue batch pos data_ quiet enough long = refl
read_in_turn_lem kind (size ∷ sizes) rounds queue batch (one, pos) data_ quiet enough long =
    let (k, left, out, behind, still) =
      read_all_finishes kind size rounds queue batch one data_ (quiet_IsData rounds quiet)
        (omega arith) (omega arith) in
    let rest_bytes : flat left ≡ drop size (flat queue) =
      behind ∙ ap (λ t. drop size (flat queue) ++ t) (quiet_flat k rounds quiet) ∙ append-nil _ in
    let counted : length (flat left) ≡ length (flat queue) - size =
      ap length rest_bytes ∙ length-drop size (flat queue) in
    let ih =
      read_in_turn_lem kind sizes rounds left batch pos still quiet (ground (arith, counted))
        (ground (arith, counted)) in
    ap (λ o. then_read o (λ l. read_in_turn kind sizes rounds l)) out
    ∙ ap (Option.map (◌∷◌ (take size (flat queue))))
        (ih ∙ ap (λ b. some (pieces sizes b)) rest_bytes)
