-- ===== src/BatchV1/Order.antt =====
-- `SortRecords`: its comparator is one that `std::sort` accepts, and the result holds each index
-- once, in the comparator's order.
use mathlib.Core.List.{Perm}
use reduct_cpp.Common.{
  ℕ, ◌≡◌, Bool, true, false, Bytes, ◌=?◌, ◌<?◌, ltb, ◌==◌, =?_iff, <?_irrefl, <?_trans,
  <?_neg_trans, <?_connex, if◌then◌else◌, length, range_from, length-range_from, ◌∙◌, arith,
}
use reduct_cpp.Common.Sort.{IsStrictWeak, IsSorted, sort-perm, sort-IsSorted, length-sort}
use reduct_cpp.Batch.{Record, Batch}
use reduct_cpp.BatchV1.{record_entry, comes_before, record_at, sort_records}

-- The comparator over what it reads of a record.
by_keys : Bool → Bytes → ℕ → Bytes → ℕ → Bool
by_keys true e s f t = if e =? f then (if s == t then e <? f else ltb s t) else e <? f
by_keys false e s f t = if s == t then e <? f else ltb s t

comes_before-keys :
    (default_entry : Bytes) (by_entry : Bool) (l r : Record)
    → comes_before default_entry by_entry l r
      ≡ by_keys by_entry
          (record_entry l default_entry)
          l.timestamp
          (record_entry r default_entry)
          r.timestamp
unfolding comes_before by_keys
comes_before-keys default_entry true l r = ground arith
comes_before-keys default_entry false l r = ground arith

by_keys_irrefl : (by_entry : Bool) (e : Bytes) (s : ℕ) → by_keys by_entry e s e s ≡ false
unfolding by_keys
by_keys_irrefl true e s = ground (arith, <?_irrefl e)
by_keys_irrefl false e s = ground (arith, <?_irrefl e)

by_keys_trans :
    (by_entry : Bool) (e f g : Bytes) (s t u : ℕ)
    → by_keys by_entry e s f t ≡ true
    → by_keys by_entry f t g u ≡ true
    → by_keys by_entry e s g u ≡ true
unfolding by_keys
by_keys_trans true e f g s t u h k =
    ground (arith, =?_iff e f, =?_iff f g, =?_iff e g, <?_trans e f g, <?_irrefl e, <?_irrefl f)
by_keys_trans false e f g s t u h k = ground (arith, <?_trans e f g)

by_keys_neg_trans :
    (by_entry : Bool) (e f g : Bytes) (s t u : ℕ)
    → by_keys by_entry e s f t ≡ false
    → by_keys by_entry f t g u ≡ false
    → by_keys by_entry e s g u ≡ false
unfolding by_keys
by_keys_neg_trans true e f g s t u h k = ground (
  arith,
  =?_iff e f,
  =?_iff f g,
  =?_iff e g,
  <?_neg_trans e f g,
  <?_neg_trans e g f,
  <?_neg_trans f e g,
  <?_connex e f,
  <?_connex f g,
  <?_irrefl e,
)
by_keys_neg_trans false e f g s t u h k = ground (arith, <?_neg_trans e f g)

-- The comparator is a strict weak order, as `std::sort` demands, whether or not it sorts by entry.
pub comes_before-IsStrictWeak :
    (default_entry : Bytes) (by_entry : Bool) → IsStrictWeak (comes_before default_entry by_entry)
comes_before-IsStrictWeak default_entry by_entry = record {
  irrefl = λ x. rw comes_before-keys (by_keys_irrefl by_entry _ _);
  trans = λ x y z h k. rw comes_before-keys (
      by_keys_trans by_entry _ (record_entry y default_entry) _ _ y.timestamp _
        (rw comes_before-keys at h) (rw comes_before-keys at k));
  neg_trans = λ x y z h k. rw comes_before-keys (
      by_keys_neg_trans by_entry _ (record_entry y default_entry) _ _ y.timestamp _
        (rw comes_before-keys at h) (rw comes_before-keys at k));
}

-- The comparator of the indices.
abbrev pub index_before : Batch → Bytes → Bool → ℕ → ℕ → Bool
index_before batch default_entry by_entry lhs rhs =
    comes_before default_entry by_entry (record_at batch.records lhs) (record_at batch.records rhs)

index_before-IsStrictWeak :
    (batch : Batch) (default_entry : Bytes) (by_entry : Bool)
    → IsStrictWeak (index_before batch default_entry by_entry)
index_before-IsStrictWeak batch default_entry by_entry =
    let w = comes_before-IsStrictWeak default_entry by_entry in
    record {
      irrefl = λ i. w.irrefl (record_at batch.records i);
      trans = λ i j k.
          w.trans (record_at batch.records i) (record_at batch.records j)
            (record_at batch.records k);
      neg_trans = λ i j k.
          w.neg_trans (record_at batch.records i) (record_at batch.records j)
            (record_at batch.records k);
    }

-- `SortRecords` gives every index of the batch once, and no record before one that precedes it.
pub sort_records_sorts :
    (batch : Batch) (default_entry : Bytes) (by_entry : Bool)
    → Perm (sort_records batch default_entry by_entry) (range_from 0 (length batch.records))
      × IsSorted
          (index_before batch default_entry by_entry)
          (sort_records batch default_entry by_entry)
unfolding sort_records
sort_records_sorts batch default_entry by_entry = (
  sort-perm (index_before batch default_entry by_entry) (range_from 0 (length batch.records)),
  sort-IsSorted (index_before batch default_entry by_entry)
      (index_before-IsStrictWeak batch default_entry by_entry)
      (range_from 0 (length batch.records)),
)

pub length-sort_records :
    (batch : Batch) (default_entry : Bytes) (by_entry : Bool)
    → length (sort_records batch default_entry by_entry) ≡ length batch.records
unfolding sort_records
length-sort_records batch default_entry by_entry =
    length-sort (index_before batch default_entry by_entry) (range_from 0 (length batch.records))
    ∙ length-range_from 0 (length batch.records)
