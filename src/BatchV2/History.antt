-- ===== src/BatchV2/History.antt =====
-- `last_header` of `ParseAndBuildBatchedRecordsV2`, the array of the headers read last, against the
-- history of all the headers read before.
use reduct_cpp.Common.{
  ℕ, zero, suc, ◌≡◌, refl, ap, ◌<◌, Option, none, some, List, [], ◌∷◌, length, set, replicate, ◌==◌,
  if◌then◌else◌, arith,
}
use reduct_cpp.BatchV2.Records.{RecordHeader, last_at}

-- The headers read so far, the newest first, each with the index of its entry.
abbrev pub History : Type 0
History = List (ℕ × RecordHeader)

-- The newest header of an entry.
unfoldable pub latest : ℕ → History → Option RecordHeader
latest idx [] = none
latest idx ((i, h) ∷ history) = if i == idx then some h else latest idx history

-- The array holds the newest header of each entry.
abbrev pub Agrees : ℕ → List (Option RecordHeader) → History → Type 0
Agrees count last history =
    (length last ≡ count) × ((idx : ℕ) → idx < count → last_at last idx ≡ latest idx history)

length-replicate : (n : ℕ) (o : Option RecordHeader) → length (replicate n o) ≡ n
length-replicate zero o = refl
length-replicate (suc n) o = ap suc (length-replicate n o)

last_at-replicate : (n idx : ℕ) → last_at (replicate n none) idx ≡ none
last_at-replicate zero idx = refl
last_at-replicate (suc n) zero = refl
last_at-replicate (suc n) (suc idx) = last_at-replicate n idx

-- At first nothing is read.
pub replicate-Agrees : (count : ℕ) → Agrees count (replicate count none) []
unfolding latest
replicate-Agrees count = (length-replicate count none, λ idx lt. last_at-replicate count idx)

length-set :
    (last : List (Option RecordHeader)) (i : ℕ) (o : Option RecordHeader)
    → length (set last i o) ≡ length last
length-set [] i o = refl
length-set (x ∷ last) zero o = refl
length-set (x ∷ last) (suc i) o = ap suc (length-set last i o)

last_at-set :
    (last : List (Option RecordHeader)) (i j : ℕ) (h : RecordHeader)
    → i < length last
    → last_at (set last i (some h)) j ≡ (if i == j then some h else last_at last j)
last_at-set [] i j h lt = absurd (omega arith)
last_at-set (x ∷ last) zero zero h lt = refl
last_at-set (x ∷ last) zero (suc j) h lt = ground arith
last_at-set (x ∷ last) (suc i) zero h lt = ground arith
last_at-set (x ∷ last) (suc i) (suc j) h lt = ground (arith, last_at-set last i j h (omega arith))

-- A header that is stored is the newest of its entry, and of no other.
pub set-Agrees :
    (count : ℕ) (last : List (Option RecordHeader)) (history : History) (i : ℕ) (h : RecordHeader)
    → i < count
    → Agrees count last history
    → Agrees count (set last i (some h)) ((i, h) ∷ history)
unfolding latest
set-Agrees count last history i h lt (len, same) = (
  ground (arith, length-set last i (some h)),
  λ idx small. ground (arith, last_at-set last i idx h (omega (arith, len)), same idx small),
)
