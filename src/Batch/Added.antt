-- ===== src/Batch/Added.antt =====
-- What a record that is added to a batch (`AddRecord`) is read as, and those before it.
use reduct_cpp.Common.{
  ℕ, ◌≡◌, refl, Option, none, some, ◌∷◌, [], Bytes, length, get_elem?, All-get_elem?,
  get_elem?-append_left,
}
use reduct_cpp.Batch.{LabelMap, Record, Batch, data_or_empty, fetch, add_record}
use reduct_cpp.Batch.Valid.{Holds, HoldsRecord, IsValid, add_record-IsValid, get_elem?_last}
use reduct_cpp.Batch.Windows.{data_at}

-- A record's data, where its index has data.
data_at_lem :
    (b : Batch) (i : ℕ) (r : Record) (j : ℕ) (bytes : Bytes)
    → get_elem? b.records i ≡ some r
    → r.data_index ≡ some j
    → get_elem? b.body j ≡ some bytes
    → data_at b i ≡ bytes
unfolding data_at fetch
data_at_lem b i r j bytes there index found = rw (there, index, found, data_at, fetch) refl

-- A record without data.
data_at-none :
    (b : Batch) (i : ℕ) (r : Record)
    → get_elem? b.records i ≡ some r
    → r.data_index ≡ none
    → data_at b i ≡ []
unfolding data_at fetch
data_at-none b i r there index = rw (there, index, data_at, fetch) refl

module _ (entry : Bytes) (timestamp : ℕ) (maybe : Option Bytes) (content_type : Bytes)
    (labels : LabelMap) (b : Batch) where
  abbrev added : Batch
  added = add_record entry timestamp maybe content_type labels b

  -- The record behind those that were there has what was given, and its data are those given.
  abbrev pub HasNew : Batch → Type 0
  HasNew a =
      (r : Record) × (get_elem? a.records (length b.records) ≡ some r)
      × (r.entry ≡ entry)
      × (r.timestamp ≡ timestamp)
      × (r.content_type ≡ content_type)
      × (r.labels ≡ labels)
      × (r.size ≡ length (data_or_empty maybe))
      × (data_at a (length b.records) ≡ data_or_empty maybe)

  -- The records that were there stay as they are, with their data.
  abbrev pub HasOld : Batch → Type 0
  HasOld a =
      (i : ℕ) (r : Record)
      → get_elem? b.records i ≡ some r
      → (get_elem? a.records i ≡ some r) × (data_at a i ≡ data_at b i)

  old_there :
      (i : ℕ) (r : Record) → get_elem? b.records i ≡ some r → get_elem? added.records i ≡ some r
  unfolding add_record
  old_there i r there = get_elem?-append_left b.records _ i there

  old_data :
      (i : ℕ) (r : Record) (index : Option ℕ)
      → get_elem? b.records i ≡ some r
      → r.data_index ≡ index
      → Holds b.body index r.size
      → data_at added i ≡ data_at b i
  unfolding add_record
  old_data i r none there at h =
      rw (data_at-none added i r (old_there i r there) at, data_at-none b i r there at) refl
  old_data i r (some j) there at (bytes, found, _) =
      rw
        (
          data_at_lem added i r j bytes (old_there i r there) at
              (get_elem?-append_left b.body (data_or_empty maybe ∷ []) j found),
          data_at_lem b i r j bytes there at found,
        )
        refl

  new_added : HasNew added
  unfolding add_record
  new_added = (
    _,
    get_elem?_last b.records _,
    refl,
    refl,
    refl,
    refl,
    refl,
    data_at_lem added (length b.records) _ (length b.body) (data_or_empty maybe)
        (get_elem?_last b.records _) refl (get_elem?_last b.body (data_or_empty maybe)),
  )

  -- Adding a record, with data or with none, to a valid batch gives a valid one: behind the records
  -- that were there, which keep their data, it has one with the entry, the time, the content type
  -- and the labels given, whose data are exactly the bytes given, none for a null pointer.
  pub add_record-Added :
      IsValid b
      → IsValid (add_record entry timestamp maybe content_type labels b)
        × HasNew (add_record entry timestamp maybe content_type labels b)
        × HasOld (add_record entry timestamp maybe content_type labels b)
  add_record-Added v = (
    add_record-IsValid entry timestamp maybe content_type labels b v,
    new_added,
    λ i r there. (
      old_there i r there,
      old_data i r r.data_index there refl
          (All-get_elem? (HoldsRecord b.body) b.records i v.held there),
    ),
  )
