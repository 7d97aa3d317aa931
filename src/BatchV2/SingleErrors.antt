-- ===== src/BatchV2/SingleErrors.antt =====
-- The loop of `ProcessBatchV2` over the errors of single records.
use reduct_cpp.Common.{
  ℕ, ◌*◌, ◌^◌, ◌<◌, ◌≡◌, refl, sym, ap, ◌∙◌, false, Option, none, some, List, [], ◌∷◌, Bytes, ◌==◌,
  starts_with, rcut-append, cut-append, if◌then◌else◌, ok, ◌>>=◌, Error, pos, All, arith,
}
use reduct_cpp.Common.Numbers.{u64_mod, to_string, stoull-to_string}
use reduct_cpp.Common.Table.{IsOrdered, find, emplace, same, nat_ord}
use reduct_cpp.Common.Emplace.{
  otherwise, otherwise-none, otherwise-if, find-emplace, emplace-IsOrdered,
}
use reduct_cpp.Http.{Headers}
use reduct_cpp.BatchV1.{header_error_prefix}
use reduct_cpp.BatchV1.Process.{BatchErrors}
use reduct_cpp.BatchV2.Build.{time_of}
use reduct_cpp.BatchV2.Process.{read_errors_v2}
use reduct_cpp.BatchV2.Failures.{
  Failure, error_header, error_of, filed_at, digits_bare, read_record_error_lem,
}
use reduct_cpp.BatchV2.Filed.{Sent, failed, other, answer_headers, failures, IsSent}
use reduct_cpp.BatchV2.Replies.{Reply, rejected, unrelated}

-- The first failure at a time.
abbrev pub first_at : ℕ → ℕ → List Failure → Option Error
first_at start_ts time [] = none
first_at start_ts time (f ∷ fs) =
    if filed_at start_ts f == time then some (error_of f) else first_at start_ts time fs

-- What is said first of the record of a time, to the microsecond.
abbrev pub first_said : ℕ → List Reply → Option Error
first_said time [] = none
first_said time (unrelated key value ∷ replies) = first_said time replies
first_said time (rejected r status message ∷ replies) =
    if time_of r * 1000 == time
    then some (record { code = pos status; message = message })
    else first_said time replies

module _ (start_ts : ℕ) where
  read_errors_v2_other :
      (key value : Bytes) (rest : Headers) (errors : BatchErrors)
      → starts_with header_error_prefix key ≡ false
      → read_errors_v2 start_ts ((key, value) ∷ rest) errors ≡ read_errors_v2 start_ts rest errors
  unfolding read_errors_v2
  read_errors_v2_other key value rest errors e = rw (e, read_errors_v2) refl

  read_errors_v2_step :
      (f : Failure) (rest : Headers) (errors : BatchErrors)
      → f.delta < u64_mod
      → f.status < 2 ^ 31
      → read_errors_v2 start_ts (error_header f ∷ rest) errors
        ≡ read_errors_v2 start_ts rest (emplace (filed_at start_ts f) (error_of f) errors)
  unfolding read_errors_v2
  read_errors_v2_step f rest errors hd hs =
      rw
        (
          rcut-append b'-' (to_string f.entry_idx) (to_string f.delta)
              (digits_bare b'-' f.delta (omega arith)),
          stoull-to_string f.delta hd,
          read_errors_v2,
        )
        (rw
          (
            cut-append b',' (to_string f.status) f.message
                (digits_bare b',' f.status (omega arith)),
            ◌>>=◌,
          )
          (rw (read_record_error_lem start_ts f hs, ◌>>=◌) refl))

  pub read_errors_v2-first_at :
      (entries : List Bytes) (sent : List Sent) (errors : BatchErrors)
      → All (IsSent entries) sent
      → IsOrdered errors
      → (read : BatchErrors) × (read_errors_v2 start_ts (answer_headers sent) errors ≡ ok read)
        × ((time : ℕ)
            → find time read
              ≡ otherwise (find time errors) (first_at start_ts time (failures sent)))
  read_errors_v2-first_at entries [] errors h ordered =
      (errors, unfold read_errors_v2 in refl, λ time. sym (otherwise-none (find time errors)))
  read_errors_v2-first_at entries (other key value ∷ sent) errors ((bare, _, _), h) ordered =
      let (read, e, found) = read_errors_v2-first_at entries sent errors h ordered in
      (read, read_errors_v2_other key value (answer_headers sent) errors bare ∙ e, found)
  read_errors_v2-first_at entries (failed f ∷ sent) errors ((_, hd, hs, _), h) ordered =
      let at = filed_at start_ts f in
      let (read, e, found) =
        read_errors_v2-first_at entries sent (emplace at (error_of f) errors) h
          (emplace-IsOrdered at (error_of f) errors ordered) in
      (
        read,
        read_errors_v2_step f (answer_headers sent) errors hd hs ∙ e,
        λ time.
            let clock : same at time ≡ (at == time) = ground arith in
            found time
            ∙ ap (λ o. otherwise o (first_at start_ts time (failures sent)))
                (find-emplace at time (error_of f) errors ordered)
            ∙ otherwise-if (find time errors) (same at time) (error_of f)
                (first_at start_ts time (failures sent))
            ∙ rw clock refl,
      )
