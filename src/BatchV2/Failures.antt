-- ===== src/BatchV2/Failures.antt =====
-- The errors of single records that a server answers with, and where `ProcessBatchV2Records` files
-- them.
use mathlib.Core.Path.{subst}
use reduct_cpp.Common.{
  ℕ, ◌+◌, ◌%◌, ◌^◌, ◌<◌, ◌≡◌, refl, sym, ap, ◌∙◌, Bool, true, false, ◌&&◌, Option, none, some, List,
  [], ◌∷◌, ◌++◌, Bytes, get_elem?, ◌==◌, ◌=?◌, =?_iff, =?_refl, rcut-append, cut-append,
  if◌then◌else◌, ok, ◌>>=◌, pos, Error, Lacks, Option-cases, Bool-cases, inl, inr, arith,
}
use reduct_cpp.Common.Numbers.{
  u64_mod, ns_of, to_string, to_string-All-IsDigit, stoull-to_string, stoi-to_string,
}
use reduct_cpp.Common.Table.{
  find, emplace, same, same_iff, find-assign, IsOrdered, bytes_ord, nat_ord,
}
use reduct_cpp.Common.Emplace.{otherwise, otherwise-none, find-emplace, emplace-IsOrdered}
use reduct_cpp.Http.{Headers}
use reduct_cpp.BatchV1.{header_error_prefix, from_microseconds}
use reduct_cpp.BatchV1.Process.{BatchErrors}
use reduct_cpp.BatchV2.Headers.{digits-Lacks}
use reduct_cpp.BatchV2.Process.{
  BatchRecordErrors, RecordError, time_behind, read_record_error, add_error, read_record_errors,
}

-- The failure of a record: its entry's index and its number behind the start, with a status and a
-- message.
pub record Failure : Type 0 where
  pub entry_idx : ℕ
  pub delta : ℕ
  pub status : ℕ
  pub message : Bytes

-- The header in which a server tells it: `x-reduct-error-<index>-<number>: <status>,<message>`.
abbrev pub error_header : Failure → Bytes × Bytes
error_header f = (
  header_error_prefix ++ (to_string f.entry_idx ++ b'-' ∷ to_string f.delta),
  to_string f.status ++ b',' ∷ f.message,
)

abbrev pub error_of : Failure → Error
error_of f = record { code = pos f.status; message = f.message }

-- The time at which it is filed.
abbrev pub filed_at : ℕ → Failure → ℕ
filed_at start_ts f = ns_of ((start_ts + f.delta) % u64_mod)

-- Numbers that fit what they are read into, and an entry that is in the list.
abbrev pub IsFailure : List Bytes → Failure → Type 0
IsFailure entries f =
    (f.entry_idx < u64_mod)
    × (f.delta < u64_mod)
    × (f.status < 2 ^ 31)
    × ((entry : Bytes) × (get_elem? entries f.entry_idx ≡ some entry))

-- Whether a failure is of the record of an entry at a time.
abbrev pub is_of : List Bytes → ℕ → Bytes → ℕ → Failure → Bool
is_of entries start_ts entry time f =
    (elim (get_elem? entries f.entry_idx) [ none ↦ false | some e ↦ e =? entry ])
    && filed_at start_ts f == time

-- The first failure of a record.
abbrev pub first_error : List Bytes → ℕ → Bytes → ℕ → List Failure → Option Error
first_error entries start_ts entry time [] = none
first_error entries start_ts entry time (f ∷ fs) =
    if is_of entries start_ts entry time f
    then some (error_of f)
    else first_error entries start_ts entry time fs

-- `errors.at(entry).at(time)`
abbrev pub error_at : Bytes → ℕ → BatchRecordErrors → Option Error
error_at entry time errors = elim (find entry errors) [ none ↦ none | some old ↦ find time old ]

time_behind_lem :
    (start_ts delta : ℕ) → time_behind start_ts delta ≡ ok (ns_of ((start_ts + delta) % u64_mod))
unfolding time_behind from_microseconds
time_behind_lem start_ts delta =
    rw (stoull-to_string ((start_ts + delta) % u64_mod) (omega arith)) refl

pub digits_bare : (b : ℕ) (n : ℕ) → b < b'0' → Lacks b (to_string n)
digits_bare b n lt = digits-Lacks b (to_string n) lt (to_string-All-IsDigit n)

-- What a failure is read as.
abbrev pub record_error : ℕ → Failure → RecordError
record_error start_ts f = record { timestamp = filed_at start_ts f; error = error_of f }

pub read_record_error_lem :
    (start_ts : ℕ) (f : Failure)
    → f.status < 2 ^ 31
    → read_record_error start_ts f.delta (to_string f.status) f.message
      ≡ ok (record_error start_ts f)
unfolding read_record_error
read_record_error_lem start_ts f lt =
    rw (stoi-to_string f.status lt, time_behind_lem start_ts f.delta) refl

module _ (entries : List Bytes) (start_ts : ℕ) where
  -- One round of the loop.
  pub read_record_errors_step :
      (f : Failure) (rest : Headers) (errors : BatchRecordErrors) (entry : Bytes)
      → f.entry_idx < u64_mod
      → f.delta < u64_mod
      → f.status < 2 ^ 31
      → get_elem? entries f.entry_idx ≡ some entry
      → read_record_errors entries start_ts (error_header f ∷ rest) errors
        ≡ read_record_errors entries start_ts rest
            (add_error entry (record_error start_ts f) errors)
  unfolding read_record_errors
  read_record_errors_step f rest errors entry hi hd hs at =
      rw
        (
          rcut-append b'-' (to_string f.entry_idx) (to_string f.delta)
              (digits_bare b'-' f.delta (omega arith)),
          stoull-to_string f.entry_idx hi,
          read_record_errors,
        )
        (rw (at, ◌>>=◌)
          (rw (stoull-to_string f.delta hd) (
            rw
              (
                cut-append b',' (to_string f.status) f.message
                    (digits_bare b',' f.status (omega arith)),
                read_record_error_lem start_ts f hs,
              )
              refl)))

-- The tables of single entries are in order.
abbrev pub AreOrdered : BatchRecordErrors → Type 0
AreOrdered errors = (entry : Bytes) (m : BatchErrors) → find entry errors ≡ some m → IsOrdered m

-- The table of an entry, empty before its first error.
abbrev table_of : Bytes → BatchRecordErrors → BatchErrors
table_of entry errors = elim (find entry errors) [ none ↦ [] | some old ↦ old ]

table_of-IsOrdered :
    (entry : Bytes) (errors : BatchRecordErrors)
    → AreOrdered errors
    → IsOrdered (table_of entry errors)
table_of-IsOrdered entry errors ordered = elim (Option-cases (find entry errors)) [
  | inl absent ↦ rw (absent, table_of) tt
  | inr (m, there) ↦ rw (there, table_of) (ordered entry m there)
]

add_error-find :
    (entry other : Bytes) (e : RecordError) (errors : BatchRecordErrors)
    → find other (add_error entry e errors) ≡ (
        if same entry other
        then some (emplace e.timestamp e.error (table_of entry errors))
        else find other errors)
unfolding add_error
add_error-find entry other e errors =
    find-assign entry other (emplace e.timestamp e.error (table_of entry errors)) errors

pub add_error-AreOrdered :
    (entry : Bytes) (e : RecordError) (errors : BatchRecordErrors)
    → AreOrdered errors
    → AreOrdered (add_error entry e errors)
add_error-AreOrdered entry e errors ordered other m there = elim (Bool-cases (same entry other)) [
  | inl here ↦
      let found : find other (add_error entry e errors)
          ≡ some (emplace e.timestamp e.error (table_of entry errors)) =
        (rw here at (add_error-find entry other e errors)) in
      let made : some (emplace e.timestamp e.error (table_of entry errors)) ≡ some m =
        sym found ∙ there in
      subst IsOrdered (ground arith) (
        emplace-IsOrdered e.timestamp e.error (table_of entry errors)
          (table_of-IsOrdered entry errors ordered))
  | inr elsewhere ↦
      let found : find other (add_error entry e errors) ≡ find other errors =
        (rw elsewhere at (add_error-find entry other e errors)) in
      ordered other m (sym found ∙ there)
]

abbrev in_table : ℕ → Option BatchErrors → Option Error
in_table time o = elim o [ none ↦ none | some old ↦ find time old ]

error_at-table_of :
    (entry : Bytes) (time : ℕ) (errors : BatchRecordErrors)
    → error_at entry time errors ≡ find time (table_of entry errors)
unfolding find
error_at-table_of entry time errors = elim (Option-cases (find entry errors)) [
  | inl absent ↦ rw (absent, table_of, error_at) refl
  | inr (m, there) ↦ rw (there, table_of, error_at) refl
]

-- The first error of a record at a time is the one that stays.
pub add_error-error_at :
    (entry other : Bytes) (time : ℕ) (e : RecordError) (errors : BatchRecordErrors)
    → AreOrdered errors
    → error_at other time (add_error entry e errors)
      ≡ otherwise
          (error_at other time errors)
          (if (entry =? other) && e.timestamp == time then some e.error else none)
add_error-error_at entry other time e errors ordered = elim (Bool-cases (same entry other)) [
  | inl here ↦
      let alike : entry ≡ other = (same_iff entry other).0 here in
      let equal : (entry =? other) ≡ true = (=?_iff entry other).1 alike in
      let clock : same e.timestamp time ≡ (e.timestamp == time) = ground arith in
      let found : find other (add_error entry e errors)
          ≡ some (emplace e.timestamp e.error (table_of entry errors)) =
        (rw here at (add_error-find entry other e errors)) in
      ap (in_table time) found
      ∙ find-emplace e.timestamp time e.error (table_of entry errors)
          (table_of-IsOrdered entry errors ordered)
      ∙ rw (clock, sym alike, error_at-table_of entry time errors, =?_refl entry) refl
  | inr elsewhere ↦
      let differ : (entry =? other) ≡ false =
        ground (arith, =?_iff entry other, same_iff entry other) in
      let found : find other (add_error entry e errors) ≡ find other errors =
        (rw elsewhere at (add_error-find entry other e errors)) in
      ap (in_table time) found ∙ rw differ (sym (otherwise-none (error_at other time errors)))
]
