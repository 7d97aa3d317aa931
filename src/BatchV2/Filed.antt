-- ===== src/BatchV2/Filed.antt =====
-- `ProcessBatchV2Records` files each error under the entry and the time of the record it is about.
use reduct_cpp.Common.{
  ℕ, ◌≡◌, refl, sym, ap, ◌∙◌, false, ◌&&◌, none, List, [], ◌∷◌, Bytes, ◌==◌, ◌=?◌, starts_with, ok,
  All,
}
use reduct_cpp.Common.Table.{bytes_ord, nat_ord}
use reduct_cpp.Common.Emplace.{otherwise, otherwise-none, otherwise-if}
use reduct_cpp.Http.{Headers, find_header}
use reduct_cpp.BatchV1.{header_error_prefix}
use reduct_cpp.BatchV2.Records.{header_entries, header_start_ts}
use reduct_cpp.BatchV2.Process.{
  BatchRecordErrors, add_error, read_record_errors, response_entries, response_start,
}
use reduct_cpp.BatchV2.Failures.{
  Failure, error_header, error_of, filed_at, IsFailure, is_of, first_error, error_at, record_error,
  AreOrdered, add_error-AreOrdered, add_error-error_at, read_record_errors_step,
}

-- A header of an answer: a failure, or another one.
pub data Sent : Type 0 where
  failed : Failure → Sent
  other : Bytes → Bytes → Sent

abbrev pub answer_headers : List Sent → Headers
answer_headers [] = []
answer_headers (failed f ∷ sent) = error_header f ∷ answer_headers sent
answer_headers (other key value ∷ sent) = (key, value) ∷ answer_headers sent

abbrev pub failures : List Sent → List Failure
failures [] = []
failures (failed f ∷ sent) = f ∷ failures sent
failures (other key value ∷ sent) = failures sent

-- A header that tells nothing of errors, entries and the start.
abbrev pub IsOther : Bytes → Type 0
IsOther key =
    (starts_with header_error_prefix key ≡ false)
    × ((key =? header_entries) ≡ false)
    × ((key =? header_start_ts) ≡ false)

abbrev pub IsSent : List Bytes → Sent → Type 0
IsSent entries (failed f) = IsFailure entries f
IsSent entries (other key value) = IsOther key

module _ (entries : List Bytes) (start_ts : ℕ) where
  read_record_errors_other :
      (key value : Bytes) (rest : Headers) (errors : BatchRecordErrors)
      → starts_with header_error_prefix key ≡ false
      → read_record_errors entries start_ts ((key, value) ∷ rest) errors
        ≡ read_record_errors entries start_ts rest errors
  unfolding read_record_errors
  read_record_errors_other key value rest errors e = rw (e, read_record_errors) refl

  -- The errors that are read: those that were there, and for each record the first failure.
  abbrev pub Filed : Headers → List Failure → BatchRecordErrors → Type 0
  Filed headers fs errors =
      (read : BatchRecordErrors) × (read_record_errors entries start_ts headers errors ≡ ok read)
      × ((entry : Bytes) (time : ℕ)
          → error_at entry time read
            ≡ otherwise (error_at entry time errors) (first_error entries start_ts entry time fs))

  pub read_record_errors-Filed :
      (sent : List Sent) (errors : BatchRecordErrors)
      → All (IsSent entries) sent
      → AreOrdered errors
      → Filed (answer_headers sent) (failures sent) errors
  read_record_errors-Filed [] errors h ordered = (
    errors,
    unfold read_record_errors in refl,
    λ entry time. sym (otherwise-none (error_at entry time errors)),
  )
  read_record_errors-Filed (other key value ∷ sent) errors ((bare, _, _), h) ordered =
      let (read, e, found) = read_record_errors-Filed sent errors h ordered in
      (read, read_record_errors_other key value (answer_headers sent) errors bare ∙ e, found)
  read_record_errors-Filed (failed f ∷ sent) errors ((hi, hd, hs, (entry, at)), h) ordered =
      let (read, e, found) =
        read_record_errors-Filed sent (add_error entry (record_error start_ts f) errors) h
          (add_error-AreOrdered entry (record_error start_ts f) errors ordered) in
      (
        read,
        read_record_errors_step entries start_ts f (answer_headers sent) errors entry hi hd hs at
            ∙ e,
        λ other_entry time.
            found other_entry time
            ∙ ap (λ o. otherwise o (first_error entries start_ts other_entry time (failures sent)))
                (add_error-error_at entry other_entry time (record_error start_ts f) errors ordered)
            ∙ otherwise-if (error_at other_entry time errors)
                ((entry =? other_entry) && filed_at start_ts f == time) (error_of f)
                (first_error entries start_ts other_entry time (failures sent))
            ∙ rw (at, is_of) refl,
      )

-- The headers of an answer do not replace the entries and the start that the request named.
find-answer_headers :
    (entries : List Bytes) (sent : List Sent)
    → All (IsSent entries) sent
    → (find_header header_entries (answer_headers sent) ≡ none)
      × (find_header header_start_ts (answer_headers sent) ≡ none)
unfolding find_header
find-answer_headers entries [] h = (refl, refl)
find-answer_headers entries (failed f ∷ sent) (_, h) = find-answer_headers entries sent h
find-answer_headers entries (other key value ∷ sent) ((_, e, s), h) =
    let (no_entries, no_start) = find-answer_headers entries sent h in
    (rw e no_entries, rw s no_start)

pub response_entries-answer_headers :
    (entries : List Bytes) (sent : List Sent)
    → All (IsSent entries) sent
    → response_entries (answer_headers sent) entries ≡ entries
unfolding response_entries
response_entries-answer_headers entries sent h =
    rw ((find-answer_headers entries sent h).0, response_entries) refl

pub response_start-answer_headers :
    (entries : List Bytes) (start_ts : ℕ) (sent : List Sent)
    → All (IsSent entries) sent
    → response_start (answer_headers sent) start_ts ≡ start_ts
unfolding response_start
response_start-answer_headers entries start_ts sent h =
    rw ((find-answer_headers entries sent h).1, response_start) refl
