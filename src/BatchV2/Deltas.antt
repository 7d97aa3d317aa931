-- ===== src/BatchV2/Deltas.antt =====
-- What the first loop of `BuildBatchV2Request` finds: an earliest time and a number for each entry.
use Prim.Native.Nat.{min}
use mathlib.Core.Option
use reduct_cpp.Common.{
  ℕ, zero, suc, ◌+◌, ◌≤◌, ◌<◌, ◌≡◌, ◌≢◌, ap, Bool, ◌&&◌, inl, inr, Option, none, some, List, [],
  ◌∷◌, ◌++◌, Bytes, length, get_elem?, All, ◌=?◌, =?_iff, =?_refl, is_empty, Bool-cases,
  Option-cases, length-append, arith,
}
use reduct_cpp.Common.Numbers.{u64_mod}
use reduct_cpp.Batch.{Record}
use reduct_cpp.BatchV1.{record_entry}
use reduct_cpp.BatchV2.Build.{index_of, add_entry, time_of, delta_of, scan_records}

map-suc_inv : (o : Option ℕ) (n : ℕ) → Option.map (λ (k : ℕ). k + 1) o ≡ some (suc n) → o ≡ some n
map-suc_inv none n h = cc
map-suc_inv (some k) n h = ground arith

map_suc-ne-zero : (o : Option ℕ) → Option.map (λ (k : ℕ). k + 1) o ≢ some 0
map_suc-ne-zero none = cc
map_suc-ne-zero (some k) = ground arith

-- The list holds the entry at the index that is found for it.
pub index_of_sound :
    (e : Bytes) (es : List Bytes) (n : ℕ) → index_of e es ≡ some n → get_elem? es n ≡ some e
unfolding index_of
index_of_sound e [] n h = cc
index_of_sound e (f ∷ es) zero h = elim (Bool-cases (f =? e)) [
  | inl same ↦ ap some ((=?_iff f e).0 same)
  | inr other ↦ absurd (map_suc-ne-zero (index_of e es) (rw other at h))
]
index_of_sound e (f ∷ es) (suc n) h = elim (Bool-cases (f =? e)) [
  | inl same ↦
      let k : ◌≡◌ {A = Option ℕ} (some 0) (some (suc n)) = (rw same at h) in absurd (ground arith)
  | inr other ↦ index_of_sound e es n (map-suc_inv (index_of e es) n (rw other at h))
]

-- Entries that are added behind do not change an index.
index_of-append :
    (e : Bytes) (es more : List Bytes) (n : ℕ)
    → index_of e es ≡ some n
    → index_of e (es ++ more) ≡ some n
unfolding index_of
index_of-append e [] more n h = cc
index_of-append e (f ∷ es) more zero h = elim (Bool-cases (f =? e)) [
  | inl same ↦ rw same
  | inr other ↦ absurd (map_suc-ne-zero (index_of e es) (rw other at h))
]
index_of-append e (f ∷ es) more (suc n) h = elim (Bool-cases (f =? e)) [
  | inl same ↦
      let k : ◌≡◌ {A = Option ℕ} (some 0) (some (suc n)) = (rw same at h) in absurd (ground arith)
  | inr other ↦
      rw (other, index_of-append e es more n (map-suc_inv (index_of e es) n (rw other at h)))
        (ap some (omega arith))
]

index_of_added : (e : Bytes) (es : List Bytes) → (n : ℕ) × (index_of e (es ++ e ∷ []) ≡ some n)
unfolding index_of
index_of_added e [] = (0, rw (=?_refl e))
index_of_added e (f ∷ es) = elim (Bool-cases (f =? e)) [
  | inl same ↦ (0, rw same)
  | inr other ↦ let (n, h) = index_of_added e es in (n + 1, rw (other, h))
]

add_entry_new : (e : Bytes) (es : List Bytes) → index_of e es ≡ none → add_entry e es ≡ es ++ e ∷ []
unfolding add_entry
add_entry_new e es h = rw (h, add_entry)

add_entry_old : (e : Bytes) (es : List Bytes) {n : ℕ} → index_of e es ≡ some n → add_entry e es ≡ es
unfolding add_entry
add_entry_old e es h = rw (h, add_entry)

-- The entry has an index once it is added, and those before keep theirs.
add_entry_sound :
    (e : Bytes) (es : List Bytes)
    → ((n : ℕ) × (index_of e (add_entry e es) ≡ some n))
      × ((f : Bytes) (n : ℕ) → index_of f es ≡ some n → index_of f (add_entry e es) ≡ some n)
      × (length (add_entry e es) ≤ length es + 1)
add_entry_sound e es = elim (Option-cases (index_of e es)) [
  | inl absent ↦ rw (add_entry_new e es absent) (
    index_of_added e es,
    λ f n h. index_of-append f es (e ∷ []) n h,
    omega (arith, length-append es (e ∷ [])),
  )
  | inr (n, there) ↦ rw (add_entry_old e es there) ((n, there), λ f n h. h, omega arith)
]

-- A record whose time is not before the start and whose entry has an index.
abbrev pub Scanned : Bytes → List Bytes → ℕ → Record → Type 0
Scanned default_entry es start_ts r =
    (start_ts ≤ time_of r) × ((n : ℕ) × (index_of (record_entry r default_entry) es ≡ some n))

pub scan_records_sound :
    (default_entry : Bytes) (require_entry : Bool) (rs : List Record) (ds es : List Bytes)
    (start start_ts : ℕ)
    → scan_records default_entry require_entry rs ds start ≡ some (es, start_ts)
    → (start_ts ≤ start)
      × ((f : Bytes) (n : ℕ) → index_of f ds ≡ some n → index_of f es ≡ some n)
      × (length es ≤ length ds + length rs)
      × All (Scanned default_entry es start_ts) rs
unfolding scan_records
scan_records_sound default_entry require_entry [] ds es start start_ts h =
    let same : ds ≡ es = ground arith in
    let at : start ≡ start_ts = ground arith in
    (omega arith, λ f n k. (rw same at k), omega (arith, ap length same), tt)
scan_records_sound default_entry require_entry (r ∷ rs) ds es start start_ts h =
    elim (Bool-cases (require_entry && is_empty (record_entry r default_entry))) [
      | inl missing ↦
          let k : ◌≡◌ {A = Option (List Bytes × ℕ)} none (some (es, start_ts)) =
            (rw (missing, scan_records) at h) in
          absurd (ground arith)
      | inr present ↦
          let e = record_entry r default_entry in
          let (here, kept, count) = add_entry_sound e ds in
          let (early, later, total, all) =
            scan_records_sound default_entry require_entry rs (add_entry e ds) es
              (min start (time_of r)) start_ts (rw (present, scan_records) at h) in
          (
            omega arith,
            λ f n k. later f n (kept f n k),
            omega arith,
            ((omega arith, (here.0, later e here.0 here.1)), all),
          )
    ]

-- The unsigned difference to an earlier start, added to it, is the time.
pub delta_of_lem :
    (ts start_ts : ℕ)
    → start_ts ≤ ts
    → ts < u64_mod
    → (delta_of ts start_ts < u64_mod) × (start_ts + delta_of ts start_ts ≡ ts)
delta_of_lem ts start_ts h lt = (omega arith, omega arith)
