-- ===== src/Common/Text.antt =====
-- The operations of `std::string` and `std::getline` that the sources use, over bytes.
use Prim.Native.Nat.{ℕ}
use Prim.Native.Char.{code}
use Prim.Native.String.{String}
use mathlib.Core.Path.{◌≡◌, refl, ap, ◌∙◌}
use mathlib.Core.Logic.{◌↔◌, ◌≢◌, inl, inr}
use mathlib.Core.Bool.{Bool, true, false, ◌&&◌, ◌||◌}
use mathlib.Core.Option
use mathlib.Core.Option.{Option, none, some}
use mathlib.Core.List.{List, [], ◌∷◌, ◌++◌}
use native.Mathlib.Omega.{arith}
use reduct_cpp.Common.Tests.{◌==◌, ltb, leb, if◌then◌else◌, Bool-cases}
use reduct_cpp.Common.Lists.{All}

abbrev pub Bytes : Type 0
Bytes = List ℕ

-- The code points of a literal: its bytes, as the literals are ASCII.
abbrev pub codes : String → Bytes
codes String.[] = []
codes (String.◌∷◌ c s) = code c ∷ codes s

infix 50 ◌=?◌ ◌<?◌
abbrev pub ◌=?◌ : Bytes → Bytes → Bool
[] =? [] = true
[] =? (d ∷ t) = false
(c ∷ s) =? [] = false
(c ∷ s) =? (d ∷ t) = (c == d) && (s =? t)

-- `operator<` of `std::string`: lexicographic, by unsigned bytes.
abbrev pub ◌<?◌ : Bytes → Bytes → Bool
[] <? [] = false
[] <? (d ∷ t) = true
(c ∷ s) <? [] = false
(c ∷ s) <? (d ∷ t) = ltb c d || (c == d) && (s <? t)

abbrev pub is_empty : Bytes → Bool
is_empty [] = true
is_empty (c ∷ s) = false

-- `s.starts_with(prefix)`
abbrev pub starts_with : Bytes → Bytes → Bool
starts_with [] s = true
starts_with (p ∷ ps) [] = false
starts_with (p ∷ ps) (c ∷ s) = (p == c) && starts_with ps s

-- `s.ends_with(ch)`
abbrev pub ends_with : ℕ → Bytes → Bool
ends_with b [] = false
ends_with b (c ∷ []) = c == b
ends_with b (c ∷ d ∷ s) = ends_with b (d ∷ s)

-- `pos = s.find(ch)` with `s.substr(0, pos)` and `s.substr(pos + 1)`; `none` is `npos`.
unfoldable pub cut : ℕ → Bytes → Option (Bytes × Bytes)
cut b [] = none
cut b (c ∷ s) =
    if c == b then some ([], s) else Option.map (λ (p : Bytes × Bytes). (c ∷ p.0, p.1)) (cut b s)

-- The same for `s.rfind(ch)`.
unfoldable pub rcut : ℕ → Bytes → Option (Bytes × Bytes)
rcut b [] = none
rcut b (c ∷ s) = elim (rcut b s) [
  | some p ↦ some (c ∷ p.0, p.1)
  | none ↦ if c == b then some ([], s) else none
]

-- Puts a byte in front of the first item.
abbrev pub prepend : ℕ → List Bytes → List Bytes
prepend c [] = (c ∷ []) ∷ []
prepend c (p ∷ ps) = (c ∷ p) ∷ ps

-- The items of `while (std::getline(ss, item, sep))`: no item follows a separator at the end.
unfoldable pub getlines : ℕ → Bytes → List Bytes
getlines sep [] = []
getlines sep (c ∷ s) = if c == sep then [] ∷ getlines sep s else prepend c (getlines sep s)

-- `fmt::join(items, sep)` put into one string.
unfoldable pub join : Bytes → List Bytes → Bytes
join sep [] = []
join sep (p ∷ []) = p
join sep (p ∷ q ∷ ps) = p ++ (sep ++ join sep (q ∷ ps))

-- Neither byte of " \t".
abbrev pub is_blank : ℕ → Bool
is_blank c = c == b' ' || c == 9

-- `std::isspace` in the "C" locale.
abbrev pub is_space : ℕ → Bool
is_space c = c == b' ' || leb 9 c && leb c 13

-- `std::isdigit`
abbrev pub is_digit : ℕ → Bool
is_digit c = leb b'0' c && leb c b'9'

-- `std::isalnum` in the "C" locale.
abbrev pub is_alnum : ℕ → Bool
is_alnum c = is_digit c || leb b'A' c && leb c b'Z' || leb b'a' c && leb c b'z'

abbrev pub all {ℓ} : {A : Type ℓ} → (A → Bool) → List A → Bool
all p [] = true
all p (x ∷ xs) = p x && all p xs

abbrev pub Lacks : ℕ → Bytes → Type 0
Lacks b = All (λ c. c ≢ b)

pub =?_iff : (s t : Bytes) → ((s =? t) ≡ true) ↔ (s ≡ t)
=?_iff [] [] = ground arith
=?_iff [] (d ∷ t) = ground arith
=?_iff (c ∷ s) [] = ground arith
=?_iff (c ∷ s) (d ∷ t) = ground (arith, =?_iff s t)

pub =?_refl : (s : Bytes) → (s =? s) ≡ true
=?_refl s = (=?_iff s s).1 refl

pub <?_irrefl : (s : Bytes) → (s <? s) ≡ false
<?_irrefl [] = refl
<?_irrefl (c ∷ s) = ground (arith, <?_irrefl s)

pub <?_trans : (s t u : Bytes) → (s <? t) ≡ true → (t <? u) ≡ true → (s <? u) ≡ true
<?_trans [] [] u h k = cc
<?_trans [] (d ∷ t) [] h k = cc
<?_trans [] (d ∷ t) (e ∷ u) h k = refl
<?_trans (c ∷ s) [] u h k = cc
<?_trans (c ∷ s) (d ∷ t) [] h k = cc
<?_trans (c ∷ s) (d ∷ t) (e ∷ u) h k = ground (arith, <?_trans s t u)

pub <?_connex : (s t : Bytes) → (s <? t) ≡ false → (t <? s) ≡ false → s ≡ t
<?_connex [] [] h k = refl
<?_connex [] (d ∷ t) h k = cc
<?_connex (c ∷ s) [] h k = cc
<?_connex (c ∷ s) (d ∷ t) h k = ground (arith, <?_connex s t)

pub <?_neg_trans : (s t u : Bytes) → (s <? t) ≡ false → (t <? u) ≡ false → (s <? u) ≡ false
<?_neg_trans s t u h k = elim (Bool-cases (s <? u)) [
  | inr n ↦ n
  | inl p ↦ elim (Bool-cases (t <? s)) [
    | inl q ↦ cc (<?_trans t s u q p)
    | inr q ↦ let e : s ≡ t = <?_connex s t h q in rw e k
  ]
]

pub starts_with-append : (p s : Bytes) → starts_with p (p ++ s) ≡ true
starts_with-append [] s = refl
starts_with-append (c ∷ p) s = ground (arith, starts_with-append p s)

-- The first separator is the one behind a part that lacks it.
pub cut-append : (b : ℕ) (p s : Bytes) → Lacks b p → cut b (p ++ b ∷ s) ≡ some (p, s)
unfolding cut
cut-append b [] s h = ground arith
cut-append b (c ∷ p) s (hc, hp) = ground (arith, cut-append b p s hp)

pub cut-none : (b : ℕ) (s : Bytes) → Lacks b s → cut b s ≡ none
unfolding cut
cut-none b [] h = refl
cut-none b (c ∷ s) (hc, hs) = ground (arith, cut-none b s hs)

pub rcut-none : (b : ℕ) (s : Bytes) → Lacks b s → rcut b s ≡ none
unfolding rcut
rcut-none b [] h = refl
rcut-none b (c ∷ s) (hc, hs) = ground (arith, rcut-none b s hs)

-- The last separator is the one before a part that lacks it.
pub rcut-append : (b : ℕ) (p s : Bytes) → Lacks b s → rcut b (p ++ b ∷ s) ≡ some (p, s)
unfolding rcut
rcut-append b [] s h = ground (arith, rcut-none b s h)
rcut-append b (c ∷ p) s h = ground (arith, rcut-append b p s h)

pub getlines-append :
    (sep : ℕ) (p s : Bytes) → Lacks sep p → getlines sep (p ++ sep ∷ s) ≡ p ∷ getlines sep s
unfolding getlines
getlines-append sep [] s h = ground arith
getlines-append sep (c ∷ p) s (hc, hp) = ground (arith, getlines-append sep p s hp)

pub getlines_one : (sep : ℕ) (p : Bytes) → Lacks sep p → p ≢ [] → getlines sep p ≡ p ∷ []
unfolding getlines
getlines_one sep [] h n = absurd (n refl)
getlines_one sep (c ∷ []) h n = ground arith
getlines_one sep (c ∷ d ∷ p) (hc, hp) n = ground (arith, getlines_one sep (d ∷ p) hp, cons_ne d p)
  where
    cons_ne : (d : ℕ) (p : Bytes) → (d ∷ p) ≢ []
    cons_ne d p = cc

-- Reading the items of a joined list gives them back.
pub getlines-join :
    (sep : ℕ) (ps : List Bytes)
    → All (λ p. Lacks sep p × (p ≢ [])) ps
    → getlines sep (join (sep ∷ []) ps) ≡ ps
unfolding join
getlines-join sep [] h = unfold getlines in refl
getlines-join sep (p ∷ []) ((hp, np), _) = getlines_one sep p hp np
getlines-join sep (p ∷ q ∷ ps) ((hp, np), hs) =
    getlines-append sep p (join (sep ∷ []) (q ∷ ps)) hp ∙ ap (◌∷◌ p) (getlines-join sep (q ∷ ps) hs)
