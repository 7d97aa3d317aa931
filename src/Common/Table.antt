-- ===== src/Common/Table.antt =====
-- `std::map`: pairs in the order of their keys, each key once.
use Prim.Native.Nat.{ℕ}
use mathlib.Core.Path.{◌≡◌, refl, ap}
use mathlib.Core.Logic.{◌↔◌}
use mathlib.Core.Bool.{Bool, true, false, not, ◌||◌}
use mathlib.Core.Option.{Option, none, some}
use mathlib.Core.List.{List, [], ◌∷◌, ◌++◌}
use native.Mathlib.Omega.{arith}
use reduct_cpp.Common.Tests.{if◌then◌else◌, ltb}
use reduct_cpp.Common.Int.{ℤ, pos, negsuc, ◌≤?ℤ◌}
use reduct_cpp.Common.Lists.{All}
use reduct_cpp.Common.Text.{Bytes, ◌<?◌, <?_irrefl, <?_trans, <?_connex}

-- `std::less` of a key type.
pub record Ord (K : Type 0) : Type 0 where
  pub lt : K → K → Bool
  pub irrefl : (a : K) → lt a a ≡ false
  pub trans : (a b c : K) → lt a b ≡ true → lt b c ≡ true → lt a c ≡ true
  pub connex : (a b : K) → lt a b ≡ false → lt b a ≡ false → a ≡ b

instance abbrev pub bytes_ord : Ord Bytes
bytes_ord = record { lt = ◌<?◌; irrefl = <?_irrefl; trans = <?_trans; connex = <?_connex }

pub ltb_irrefl : (a : ℕ) → ltb a a ≡ false
ltb_irrefl a = ground arith

pub ltb_trans : (a b c : ℕ) → ltb a b ≡ true → ltb b c ≡ true → ltb a c ≡ true
ltb_trans a b c h k = ground arith

pub ltb_connex : (a b : ℕ) → ltb a b ≡ false → ltb b a ≡ false → a ≡ b
ltb_connex a b h k = ground arith

instance abbrev pub nat_ord : Ord ℕ
nat_ord = record { lt = ltb; irrefl = ltb_irrefl; trans = ltb_trans; connex = ltb_connex }

abbrev pub lt_int : ℤ → ℤ → Bool
lt_int a b = not (b ≤?ℤ a)

pub lt_int_irrefl : (a : ℤ) → lt_int a a ≡ false
lt_int_irrefl (pos n) = ground arith
lt_int_irrefl (negsuc n) = ground arith

pub lt_int_trans : (a b c : ℤ) → lt_int a b ≡ true → lt_int b c ≡ true → lt_int a c ≡ true
lt_int_trans (pos m) (pos n) (pos k) h j = ground arith
lt_int_trans (negsuc m) (pos n) (pos k) h j = ground arith
lt_int_trans (negsuc m) (negsuc n) (pos k) h j = ground arith
lt_int_trans (negsuc m) (negsuc n) (negsuc k) h j = ground arith
lt_int_trans (pos m) (negsuc n) c h j = cc
lt_int_trans (pos m) (pos n) (negsuc k) h j = cc
lt_int_trans (negsuc m) (pos n) (negsuc k) h j = cc

pub lt_int_connex : (a b : ℤ) → lt_int a b ≡ false → lt_int b a ≡ false → a ≡ b
lt_int_connex (pos m) (pos n) h k = ground arith
lt_int_connex (negsuc m) (negsuc n) h k = ground arith
lt_int_connex (pos m) (negsuc n) h k = cc
lt_int_connex (negsuc m) (pos n) h k = cc

instance abbrev pub int_ord : Ord ℤ
int_ord = record {
  lt = lt_int;
  irrefl = lt_int_irrefl;
  trans = lt_int_trans;
  connex = lt_int_connex;
}

abbrev pub Table : Type 0 → Type 0 → Type 0
Table K V = List (K × V)

module _ {K : Type 0} ⦃o : Ord K⦄ where
  -- Neither key comes before the other.
  abbrev pub same : K → K → Bool
  same a b = not (o.lt a b || o.lt b a)

  pub same_iff : (a b : K) → (same a b ≡ true) ↔ (a ≡ b)
  same_iff a b = (λ h. o.connex a b (ground arith) (ground arith), λ e. rw (e, o.irrefl b) refl)

module _ {K V : Type 0} ⦃o : Ord K⦄ where
  unfoldable pub find : K → Table K V → Option V
  find k [] = none
  find k ((j, v) ∷ m) = if same j k then some v else find k m

  -- `m[k] = v`
  unfoldable pub assign : K → V → Table K V → Table K V
  assign k v [] = (k, v) ∷ []
  assign k v ((j, w) ∷ m) =
      if o.lt k j
      then (k, v) ∷ (j, w) ∷ m
      else if o.lt j k
      then (j, w) ∷ assign k v m
      else (k, v) ∷ m

  -- `m.emplace(k, v)`: a key that is there keeps its value.
  unfoldable pub emplace : K → V → Table K V → Table K V
  emplace k v [] = (k, v) ∷ []
  emplace k v ((j, w) ∷ m) =
      if o.lt k j
      then (k, v) ∷ (j, w) ∷ m
      else if o.lt j k
      then (j, w) ∷ emplace k v m
      else (j, w) ∷ m

  unfoldable pub erase : K → Table K V → Table K V
  erase k [] = []
  erase k ((j, w) ∷ m) = if same j k then erase k m else (j, w) ∷ erase k m

  -- The keys rise strictly.
  abbrev pub IsOrdered : Table K V → Type 0
  IsOrdered [] = Unit
  IsOrdered ((k, v) ∷ m) = All (λ e. o.lt k e.0 ≡ true) m × IsOrdered m

module _ {K V : Type 0} ⦃o : Ord K⦄ where
  pub find-assign :
      (k j : K) (v : V) (m : Table K V)
      → find j (assign k v m) ≡ (if same k j then some v else find j m)
  unfolding find assign
  find-assign k j v [] = refl
  find-assign k j v ((i, w) ∷ m) =
      ground (arith, same_iff k j, same_iff i k, same_iff i j, find-assign k j v m)

  pub find-erase :
      (k j : K) (m : Table K V) → find j (erase k m) ≡ (if same k j then none else find j m)
  unfolding find erase
  find-erase k j [] = ground arith
  find-erase k j ((i, w) ∷ m) =
      ground (arith, same_iff k j, same_iff i k, same_iff i j, find-erase k j m)

  -- A key past all others goes to the end.
  pub assign_last :
      (k : K) (v : V) (m : Table K V)
      → All (λ e. o.lt e.0 k ≡ true) m
      → assign k v m ≡ m ++ (k, v) ∷ []
  unfolding assign
  assign_last k v [] h = refl
  assign_last k v ((j, w) ∷ m) (p, h) =
      let q : o.lt k j ≡ false = ground (arith, o.trans j k j, o.irrefl j) in
      rw (q, p) (ap (◌∷◌ (j, w)) (assign_last k v m h))

module _ {K V : Type 0} ⦃o : Ord K⦄ where
  -- Of a table whose keys are below those of another one.
  pub All-heads :
      (k : K) (v : V) (m base : Table K V)
      → All (λ e. All (λ l. o.lt e.0 l.0 ≡ true) ((k, v) ∷ m)) base
      → All (λ e. o.lt e.0 k ≡ true) base
  All-heads k v m [] h = tt
  All-heads k v m (e ∷ base) ((p, _), h) = (p, All-heads k v m base h)

  pub All-tails :
      (first : K × V) (m base : Table K V)
      → All (λ e. All (λ l. o.lt e.0 l.0 ≡ true) (first ∷ m)) base
      → All (λ l. o.lt first.0 l.0 ≡ true) m
      → All (λ e. All (λ l. o.lt e.0 l.0 ≡ true) m) (base ++ first ∷ [])
  All-tails first m [] h below = (below, tt)
  All-tails first m (e ∷ base) ((_, p), h) below = (p, All-tails first m base h below)
