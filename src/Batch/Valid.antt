-- ===== src/Batch/Valid.antt =====
-- The invariant of a batch, and that every way of adding a record keeps it.
use reduct_cpp.Common.{
  ℕ, ◌+◌, ◌≡◌, refl, ap, Option, none, some, List, [], ◌∷◌, ◌++◌, Bytes, length, get_elem?, All,
  All-append, get_elem?-append_left, arith,
}
use reduct_cpp.Batch.{
  LabelMap, Record, Batch, empty_batch, data_or_empty, add_record, add_only_labels,
}

-- The sum of the sizes of records.
unfoldable pub total_size : List Record → ℕ
total_size [] = 0
total_size (r ∷ rs) = r.size + total_size rs

unfoldable pub total_length : List Bytes → ℕ
total_length [] = 0
total_length (d ∷ ds) = length d + total_length ds

-- A record with data has the size of its data; one without has size 0.
abbrev pub Holds : List Bytes → Option ℕ → ℕ → Type 0
Holds body none size = size ≡ 0
Holds body (some i) size = (bytes : Bytes) × (get_elem? body i ≡ some bytes) × (size ≡ length bytes)

abbrev pub HoldsRecord : List Bytes → Record → Type 0
HoldsRecord body r = Holds body r.data_index r.size

pub record IsValid (b : Batch) : Type 0 where
  pub counted : b.size ≡ total_size b.records
  pub stored : b.size ≡ total_length b.body
  pub held : All (HoldsRecord b.body) b.records

total_size-append :
    (rs : List Record) (r : Record) → total_size (rs ++ r ∷ []) ≡ total_size rs + r.size
unfolding total_size
total_size-append [] r = omega arith
total_size-append (s ∷ rs) r = omega (arith, total_size-append rs r)

total_length-append :
    (ds : List Bytes) (d : Bytes) → total_length (ds ++ d ∷ []) ≡ total_length ds + length d
unfolding total_length
total_length-append [] d = omega arith
total_length-append (e ∷ ds) d = omega (arith, total_length-append ds d)

Holds-append :
    (body : List Bytes) (d : Bytes) (index : Option ℕ) (size : ℕ)
    → Holds body index size
    → Holds (body ++ d ∷ []) index size
Holds-append body d none size h = h
Holds-append body d (some i) size (bytes, found, e) =
    (bytes, get_elem?-append_left body (d ∷ []) i found, e)

All-Holds-append :
    (body : List Bytes) (d : Bytes) (rs : List Record)
    → All (HoldsRecord body) rs
    → All (HoldsRecord (body ++ d ∷ [])) rs
All-Holds-append body d [] h = tt
All-Holds-append body d (r ∷ rs) (p, h) =
    (Holds-append body d r.data_index r.size p, All-Holds-append body d rs h)

pub get_elem?_last :
    {A : Type 0} (body : List A) (d : A) → get_elem? (body ++ d ∷ []) (length body) ≡ some d
get_elem?_last [] d = refl
get_elem?_last (e ∷ body) d = get_elem?_last body d

pub empty_batch-IsValid : IsValid empty_batch
unfolding total_size total_length
empty_batch-IsValid = record { counted = refl; stored = refl; held = tt }

-- Adding a record, with data or with none, to a valid batch gives a valid one: the size counts the
-- data once.
pub add_record-IsValid :
    (entry : Bytes) (timestamp : ℕ) (maybe : Option Bytes) (content_type : Bytes)
    (labels : LabelMap) (b : Batch)
    → IsValid b
    → IsValid (add_record entry timestamp maybe content_type labels b)
unfolding add_record
add_record-IsValid entry timestamp maybe content_type labels b v =
    let bytes = data_or_empty maybe in
    record {
      counted = rw total_size-append (ap (λ n. n + length bytes) v.counted);
      stored = rw total_length-append (ap (λ n. n + length bytes) v.stored);
      held =
          All-append (HoldsRecord (b.body ++ bytes ∷ [])) b.records _
            (All-Holds-append b.body bytes b.records v.held)
            ((bytes, get_elem?_last b.body bytes, refl), tt);
    }

-- Adding a record without data to a valid batch gives a valid one.
pub add_only_labels-IsValid :
    (entry : Bytes) (timestamp : ℕ) (labels : LabelMap) (b : Batch)
    → IsValid b
    → IsValid (add_only_labels entry timestamp labels b)
unfolding add_only_labels
add_only_labels-IsValid entry timestamp labels b v = record {
  counted = rw total_size-append (omega (arith, v.counted));
  stored = v.stored;
  held = All-append (HoldsRecord b.body) b.records _ v.held (refl, tt);
}
