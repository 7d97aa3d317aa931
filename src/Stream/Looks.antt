-- ===== src/Stream/Looks.antt =====
-- What a look at the queue gives a record of a batch (the block under the lock in `Read`).
use reduct_cpp.Common.{
  ℕ, zero, suc, ◌<◌, ◌≡◌, refl, sym, Option, none, some, [], ◌∷◌, ◌++◌, Bytes, length, take, drop,
  ltb, leb, inl, inr, All, Bool-cases, take_all, drop_all, length-drop, arith,
}
use reduct_cpp.Stream.{Queue, Kind, batch_v1, batch_v2, single, taken, look, is_complete}
use reduct_cpp.Stream.Conserve.{flat}

-- The loops for batches.
abbrev pub IsBatch : Kind → Type 0
IsBatch batch_v1 = Unit
IsBatch batch_v2 = Unit
IsBatch single = ⊥

-- A chunk with bytes in it.
abbrev pub IsData : Option Bytes → Type 0
IsData none = ⊥
IsData (some []) = ⊥
IsData (some (c ∷ chunk)) = Unit

pub IsData-of_pos : (chunk : Bytes) → 0 < length chunk → IsData (some chunk)
IsData-of_pos [] h = absurd (omega arith)
IsData-of_pos (c ∷ chunk) h = tt

-- A look at data gives its first bytes, at most as many as are wanted, and leaves the rest.
pub look-IsData :
    (kind : Kind) (want c : ℕ) (chunk : Bytes) (queue : Queue)
    → IsBatch kind
    → 0 < want
    → All IsData queue
    → (d : ℕ) × (ds : Bytes) × (left : Queue) × (look kind want (some (c ∷ chunk) ∷ queue)
        ≡ taken (some (d ∷ ds)) left)
      × (d ∷ ds ≡ take want (c ∷ chunk))
      × (flat left ≡ drop want (c ∷ chunk) ++ flat queue)
      × All IsData left
unfolding look flat
look-IsData kind zero c chunk queue b w h = absurd (omega arith)
look-IsData single (suc want) c chunk queue b w h = absurd b
look-IsData kind (suc want) c chunk queue b w h =
    elim (Bool-cases (ltb (suc want) (length (c ∷ chunk)))) [
      | inl long ↦ (
        c,
        take want chunk,
        some (drop want chunk) ∷ queue,
        rw long,
        refl,
        refl,
        (IsData-of_pos (drop want chunk) (ground (arith, length-drop want chunk)), h),
      )
      | inr short ↦ (
        c,
        chunk,
        queue,
        rw short,
        sym (take_all (suc want) (c ∷ chunk) (ground arith)),
        rw (drop_all want chunk (ground arith)),
        h,
      )
    ]

pub is_complete_batch :
    (kind : Kind) (size total : ℕ) → IsBatch kind → is_complete kind size total ≡ leb size total
is_complete_batch batch_v1 size total b = refl
is_complete_batch batch_v2 size total b = refl
is_complete_batch single size total b = absurd b
