-- ===== src/Common/Emplace.antt =====
-- `std::map::emplace`: what is found once a key that is there has kept its value.
use mathlib.Core.Path.{◌≡◌, refl}
use mathlib.Core.Logic.{inl, inr}
use mathlib.Core.Bool.{true}
use mathlib.Core.Bool.{Bool, true, false}
use mathlib.Core.Option.{Option, none, some}
use mathlib.Core.List.{[], ◌∷◌}
use native.Mathlib.Omega.{arith}
use reduct_cpp.Common.Tests.{if◌then◌else◌, Bool-cases}
use reduct_cpp.Common.Lists.{All}
use reduct_cpp.Common.Table.{Ord, Table, same, same_iff, find, emplace, IsOrdered}

-- The first of two values that is there.
abbrev pub otherwise {ℓ} : {A : Type ℓ} → Option A → Option A → Option A
otherwise (some a) o = some a
otherwise none o = o

pub otherwise-none {ℓ} : {A : Type ℓ} (o : Option A) → otherwise o none ≡ o
otherwise-none none = refl
otherwise-none (some a) = refl

pub otherwise-if {ℓ} :
    {A : Type ℓ} (o : Option A) (b : Bool) (a : A) (rest : Option A)
    → otherwise (otherwise o (if b then some a else none)) rest
      ≡ otherwise o (if b then some a else rest)
otherwise-if (some _) b a rest = refl
otherwise-if none true a rest = refl
otherwise-if none false a rest = refl

module _ {K V : Type 0} ⦃o : Ord K⦄ where
  find_above : (k : K) (m : Table K V) → All (λ e. o.lt k e.0 ≡ true) m → find k m ≡ none
  unfolding find
  find_above k [] h = refl
  find_above k ((j, w) ∷ m) (p, h) = ground (arith, find_above k m h)

  emplace-All :
      (P : K × V → Type 0) (k : K) (v : V) (m : Table K V)
      → P (k, v)
      → All P m
      → All P (emplace k v m)
  unfolding emplace
  emplace-All P k v [] p h = (p, tt)
  emplace-All P k v ((j, w) ∷ m) p (q, h) = ground (arith, emplace-All P k v m p h)

  All-below :
      (k j : K) (m : Table K V)
      → o.lt k j ≡ true
      → All (λ e. o.lt j e.0 ≡ true) m
      → All (λ e. o.lt k e.0 ≡ true) m
  All-below k j [] lt h = tt
  All-below k j ((i, w) ∷ m) lt (p, h) = (o.trans k j i lt p, All-below k j m lt h)

  pub emplace-IsOrdered : (k : K) (v : V) (m : Table K V) → IsOrdered m → IsOrdered (emplace k v m)
  unfolding emplace
  emplace-IsOrdered k v [] h = (tt, tt)
  emplace-IsOrdered k v ((j, w) ∷ m) (p, h) = ground (
    arith,
    emplace-IsOrdered k v m h,
    All-below k j m,
    emplace-All (λ e. o.lt j e.0 ≡ true) k v m,
  )

  -- A key that is there keeps its value, and no other key's value changes.
  pub find-emplace :
      (k j : K) (v : V) (m : Table K V)
      → IsOrdered m
      → find j (emplace k v m) ≡ otherwise (find j m) (if same k j then some v else none)
  unfolding find emplace
  find-emplace k j v [] h = refl
  find-emplace k j v ((i, w) ∷ m) (p, h) = elim (Bool-cases (o.lt k i)) [
    | inl lt ↦
        let absent : find k m ≡ none = find_above k m (All-below k i m lt p) in
        ground (arith, same_iff k j, same_iff i j, o.irrefl k)
    | inr ge ↦
        ground
          (arith, same_iff k j, same_iff i k, same_iff i j, find-emplace k j v m h, o.connex i k)
  ]
