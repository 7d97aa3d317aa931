-- ===== src/Bucket/Reports.antt =====
-- What a bucket reports of the errors of single records.
use reduct_cpp.Common.{◌≡◌, refl, ◌↔◌, true, false, [], ◌∷◌, All, is_error}
use reduct_cpp.BatchV2.Process.{BatchRecordErrors}
use reduct_cpp.Bucket.Batches.{first_batch_record_error}

-- For errors with a code other than 0: the first error that is reported is none exactly if no
-- record of any entry has an error.
pub first_batch_record_error_lem :
    (errors : BatchRecordErrors)
    → All (λ entry. All (λ e. is_error e.1 ≡ true) entry.1) errors
    → (is_error (first_batch_record_error errors) ≡ false) ↔ All (λ entry. entry.1 ≡ []) errors
unfolding first_batch_record_error
first_batch_record_error_lem [] h = (λ fine. tt, λ none_. refl)
first_batch_record_error_lem ((entry, []) ∷ rest) (_, h) =
    let ih = first_batch_record_error_lem rest h in
    (λ fine. (refl, ih.0 fine), λ clean. ih.1 clean.1)
first_batch_record_error_lem ((entry, (time, err) ∷ more) ∷ rest) ((bad, _), h) =
    (λ fine. absurd (cc (bad, fine)), λ clean. absurd (cc (clean.0)))
