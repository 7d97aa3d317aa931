-- ===== src/Stream/Conserve.antt =====
-- What a read takes from the queue it hands over, in the order of arrival.
use reduct_cpp.Common.{
  ℕ, suc, ◌+◌, ◌-◌, ◌≡◌, ◌⊎◌, refl, sym, ap, ◌∙◌, false, Option, none, some, [], ◌∷◌, ◌++◌,
  append_assoc, append-nil, Bytes, length, take, drop, ltb, inl, inr, Bool-cases, take-append-drop,
}
use reduct_cpp.Stream.{
  Queue, Kind, batch_v1, batch_v2, single, Look, taken, broken, cut_chunk, look, Outcome, returned,
  waiting, undefined, Arrivals, is_complete, read_loop, append_chunk, read, read_all,
}

-- The bytes in a queue; the end mark has none.
abbrev pub bytes_of : Option Bytes → Bytes
bytes_of none = []
bytes_of (some chunk) = chunk

unfoldable pub flat : Queue → Bytes
flat [] = []
flat (chunk ∷ queue) = bytes_of chunk ++ flat queue

unfoldable pub flat_all : Arrivals → Bytes
flat_all [] = []
flat_all (queue ∷ rounds) = flat queue ++ flat_all rounds

pub flat-append : (q r : Queue) → flat (q ++ r) ≡ flat q ++ flat r
unfolding flat
flat-append [] r = refl
flat-append (chunk ∷ q) r =
    ap (λ t. bytes_of chunk ++ t) (flat-append q r)
    ∙ sym (append_assoc (bytes_of chunk) (flat q) (flat r))

-- The bytes that a look takes and leaves; `d` where it breaks.
abbrev look_bytes : Bytes → Look → Bytes
look_bytes d (taken got left) = bytes_of got ++ flat left
look_bytes d broken = d

cut_chunk_bytes :
    (d : Bytes) (want : ℕ) (chunk : Bytes) (queue : Queue)
    → look_bytes d (cut_chunk want chunk queue) ≡ chunk ++ flat queue
unfolding flat
cut_chunk_bytes d want chunk queue = elim (Bool-cases (ltb want (length chunk))) [
  | inl long ↦ rw long (
      sym (append_assoc (take want chunk) (drop want chunk) (flat queue))
      ∙ ap (λ t. t ++ flat queue) (take-append-drop want chunk))
  | inr short ↦ rw short refl
]

look_keeps :
    (kind : Kind) (want : ℕ) (queue : Queue)
    → look_bytes (flat queue) (look kind want queue) ≡ flat queue
unfolding look flat
look_keeps kind want [] = refl
look_keeps single want (chunk ∷ queue) = refl
look_keeps batch_v2 want (none ∷ queue) = refl
look_keeps batch_v2 want (some chunk ∷ queue) = cut_chunk_bytes _ want chunk queue
look_keeps batch_v1 want (none ∷ queue) = refl
look_keeps batch_v1 want (some chunk ∷ queue) = cut_chunk_bytes _ want chunk queue

-- The bytes of the state and of the queue are those that were there and those that arrived; a read
-- that returned saw the arrivals of its first rounds.
abbrev pub Kept : Bytes → Queue → Arrivals → Outcome Bytes → Type 0
Kept s queue rounds (returned s' queue') =
    (k : ℕ) × (s' ++ flat queue' ≡ s ++ (flat queue ++ flat_all (take k rounds)))
Kept s queue rounds (waiting total s' queue') =
    s' ++ flat queue' ≡ s ++ (flat queue ++ flat_all rounds)
Kept s queue rounds undefined = Unit {0}

join_arrivals :
    (s s₂ : Bytes) (queue arrived q₂ : Queue) (more : Bytes)
    → s₂ ++ flat q₂ ≡ s ++ (flat queue ++ flat arrived)
    → s₂ ++ (flat q₂ ++ more) ≡ s ++ (flat queue ++ (flat arrived ++ more))
join_arrivals s s₂ queue arrived q₂ more e =
    sym (append_assoc s₂ (flat q₂) more) ∙ ap (λ t. t ++ more) e ∙ simp append_assoc

-- One round, and then the rest.
Kept-later :
    (s s₂ : Bytes) (queue arrived q₂ : Queue) (rounds : Arrivals) (out : Outcome Bytes)
    → s₂ ++ flat q₂ ≡ s ++ (flat queue ++ flat arrived)
    → Kept s₂ q₂ rounds out
    → Kept s queue (arrived ∷ rounds) out
unfolding flat_all
Kept-later s s₂ queue arrived q₂ rounds (returned s' queue') e (k, h) =
    (suc k, h ∙ join_arrivals s s₂ queue arrived q₂ (flat_all (take k rounds)) e)
Kept-later s s₂ queue arrived q₂ rounds (waiting total s' queue') e h =
    h ∙ join_arrivals s s₂ queue arrived q₂ (flat_all rounds) e
Kept-later s s₂ queue arrived q₂ rounds undefined e h = tt

Kept-now :
    (s s' : Bytes) (queue arrived queue' : Queue) (rounds : Arrivals)
    → s' ++ flat queue' ≡ s ++ (flat queue ++ flat arrived)
    → Kept s queue (arrived ∷ rounds) (returned s' queue')
unfolding flat_all
Kept-now s s' queue arrived queue' rounds e =
    (1, e ∙ ap (λ t. s ++ (flat queue ++ t)) (sym (append-nil (flat arrived))))

pub Look-cases :
    (l : Look) → (l ≡ broken) ⊎ ((got : Option Bytes) × (left : Queue) × (l ≡ taken got left))
Look-cases (taken got left) = inr (got, left, refl)
Look-cases broken = inl refl

module _ (kind : Kind) (size : ℕ) where
  conserve_step :
      (arrived : Queue) (rounds : Arrivals) (total : ℕ) (s : Bytes) (queue left : Queue)
      (got : Option Bytes)
      → look kind (size - total) (queue ++ arrived) ≡ taken got left
      → bytes_of got ++ flat left ≡ flat queue ++ flat arrived
      → ((total : ℕ) (s : Bytes) (queue : Queue)
          → Kept s queue rounds (read_loop kind append_chunk size rounds total s queue))
      → Kept s queue
          (arrived ∷ rounds)
          (read_loop kind append_chunk size (arrived ∷ rounds) total s queue)
  unfolding read_loop
  conserve_step arrived rounds total s queue left none e f ih =
      rw (e, read_loop) (Kept-now s s queue arrived left rounds (ap (λ t. s ++ t) f))
  conserve_step arrived rounds total s queue left (some []) e f ih =
      rw (e, read_loop)
        (Kept-later s s queue arrived left rounds _ (ap (λ t. s ++ t) f) (ih total s left))
  conserve_step arrived rounds total s queue left (some (c ∷ chunk)) e f ih =
      let moved : (s ++ c ∷ chunk) ++ flat left ≡ s ++ (flat queue ++ flat arrived) =
        append_assoc s (c ∷ chunk) (flat left) ∙ ap (λ t. s ++ t) f in
      elim (Bool-cases (is_complete kind size (total + length (c ∷ chunk)))) [
        | inl finished ↦
            rw (e, finished, read_loop)
              (Kept-now s (s ++ c ∷ chunk) queue arrived left rounds moved)
        | inr open' ↦
            rw (e, open', read_loop)
              (Kept-later s (s ++ c ∷ chunk) queue arrived left rounds _ moved
                (ih (total + length (c ∷ chunk)) (s ++ c ∷ chunk) left))
      ]

  pub read_loop-Kept :
      (rounds : Arrivals) (total : ℕ) (s : Bytes) (queue : Queue)
      → Kept s queue rounds (read_loop kind append_chunk size rounds total s queue)
  unfolding read_loop flat_all
  read_loop-Kept [] total s queue = ap (λ t. s ++ t) (sym (append-nil (flat queue)))
  read_loop-Kept (arrived ∷ rounds) total s queue =
      elim (Look-cases (look kind (size - total) (queue ++ arrived))) [
        | inl breaks ↦ rw (breaks, read_loop) tt
        | inr (got, left, e) ↦
            conserve_step arrived rounds total s queue left got e
              ((rw e at (look_keeps kind (size - total) (queue ++ arrived)))
                ∙ flat-append queue arrived)
              (λ t s q. read_loop-Kept rounds t s q)
      ]

-- Whatever arrives and however often the loop looks, a read hands over bytes of the response in
-- their order: what it gave and what it left in the queue are what was there and what arrived.
pub read_all-Kept :
    (kind : Kind) (size : ℕ) (rounds : Arrivals) (queue : Queue)
    → Kept [] queue rounds (read_all kind size false rounds queue)
unfolding read_all read
read_all-Kept kind size rounds queue = read_loop-Kept kind size rounds 0 [] queue
