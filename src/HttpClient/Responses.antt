-- ===== src/HttpClient/Responses.antt =====
-- `CheckRequest` on every kind of response, and the normal form of header names.
use mathlib.Core.Option
use reduct_cpp.Common.{
  codes, ◌≡◌, ◌≢◌, refl, sym, ap, ◌∙◌, ◌>>=◌, true, false, Option, none, some, List, [], ◌∷◌, map,
  Bytes, ◌==◌, ◌=?◌, =?_iff, if◌then◌else◌, Except, ok, thrown, Except-cases, cut, ℤ, pos, neg,
  Error, is_error, no_error, ◌==ℤ◌, Bool-cases, Option-cases, ◌⊎◌, inl, inr, arith,
}
use reduct_cpp.Common.Numbers.{stoi}
use reduct_cpp.Http.{Headers, find_header}
use reduct_cpp.HttpClient.{
  Response, HttpResult, failed, answered, header_error, header_api, error_with, major_version,
  check_version, check_request, to_lower, assign_header, normalize_fields, normalize_headers,
}

-- A status code is not 0.
abbrev pub HasStatus : HttpResult → Type 0
HasStatus (failed text) = Unit
HasStatus (answered r) = r.status ≢ 0

-- The version behind a response that names one or none.
abbrev pub newer : Option Bytes → Option Bytes → Option Bytes
newer old none = old
newer old (some v) = some v

-- One of the two parts of a version is no number.
abbrev pub Unreadable : Bytes → Type 0
Unreadable version =
    (before : Bytes) × (behind : Bytes) × (cut b'.' version ≡ some (before, behind))
    × ((stoi 10 before ≡ thrown) ⊎ (stoi 10 behind ≡ thrown))

-- What a check says of the response and of the API version before and after: an error
-- leaves the version as it was; without one the response has status 200, and the version that it
-- names, if any, is taken. It throws only where such a response names a version that is unreadable.
abbrev pub Checked : HttpResult → Option Bytes → Except (Error × Option Bytes) → Type 0
Checked res old thrown =
    (r : Response) × (res ≡ answered r)
    × (r.status ≡ 200)
    × (v : Bytes) × (r.find header_api ≡ some v)
    × Unreadable v
Checked res old (ok (err, new)) =
    ((is_error err ≡ true) × (new ≡ old))
    ⊎ ((is_error err ≡ false)
        × (r : Response) × (res ≡ answered r)
        × (r.status ≡ 200)
        × (new ≡ newer old (r.find header_api)))

refused :
    (res : HttpResult) (old : Option Bytes) (e : Error)
    → is_error e ≡ true
    → Checked res old (ok (e, old))
refused res old e bad = inl (bad, refl)

check_version-cases :
    (unsupported : ℤ → ℤ → Bytes) (v : Bytes)
    → ((check_version unsupported v ≡ thrown) × Unreadable v)
      ⊎ ((err : Error) × (check_version unsupported v ≡ ok err))
unfolding check_version
check_version-cases unsupported v = elim (Option-cases (cut b'.' v)) [
  | inl absent ↦
      inr (error_with (neg 1) (codes "Invalid API version"), rw (absent, check_version) refl)
  | inr ((before, behind), found) ↦ elim (Except-cases (stoi 10 before)) [
    | inl bad ↦ inl (rw (found, check_version, bad) refl, (before, behind, found, inl bad))
    | inr (major, first) ↦ elim (Except-cases (stoi 10 behind)) [
      | inl bad ↦ inl (rw (found, check_version, first, bad) refl, (before, behind, found, inr bad))
      | inr (minor, second) ↦ inr (
        if major ==ℤ major_version then no_error else error_with (neg 1) (unsupported major minor),
        rw (found, check_version, first, second) refl,
      )
    ]
  ]
]

-- The check of a version, by what it gives.
versioned :
    (r : Response) (old : Option Bytes) (v : Bytes) (e : Except Error)
    → (r.status == 200) ≡ true
    → r.find header_api ≡ some v
    → ((e ≡ thrown) × Unreadable v) ⊎ ((err : Error) × (e ≡ ok err))
    → Checked
        (answered r)
        old
        (e >>= λ err. ok (if is_error err then (err, old) else (err, some v)))
versioned r old v e status found (inl (bad, unreadable)) =
    rw bad (r, refl, ground (arith, status), v, found, unreadable)
versioned r old v e status found (inr (err, given)) = elim (Bool-cases (is_error err)) [
  | inl bad ↦ rw (given, bad) (inl (bad, refl))
  | inr fine ↦
      rw (given, fine) (inr (fine, r, refl, ground (arith, status), ap (newer old) (sym found)))
]

check_request_answered :
    (unsupported : ℤ → ℤ → Bytes) (r : Response) (old : Option Bytes)
    → r.status ≢ 0
    → Checked (answered r) old (check_request unsupported (answered r) old)
unfolding check_request
check_request_answered unsupported r old positive = elim (Bool-cases (r.status == 200)) [
  | inr other ↦
      rw (other, check_request)
        (refused (answered r) old
          (error_with (pos r.status) (Option.get_or (r.find header_error) (codes "Unknown error")))
          (ground arith))
  | inl status ↦ elim (Option-cases (r.find header_api)) [
    | inl absent ↦
        rw (status, absent, check_request)
          (inr (refl, r, refl, ground arith, ap (newer old) (sym absent)))
    | inr (v, found) ↦
        rw (status, found, check_request)
          (versioned r old v (check_version unsupported v) status found
            (check_version-cases unsupported v))
  ]
]

-- For responses with a status other than 0: a check that gives an error leaves the API version as
-- it was. One that gives none had a response with status 200, and takes the version that the
-- response names, if it names one. A check throws only where a response with status 200 names a
-- version of two parts of which one is no number.
pub check_request-Checked :
    (unsupported : ℤ → ℤ → Bytes) (res : HttpResult) (old : Option Bytes)
    → HasStatus res
    → Checked res old (check_request unsupported res old)
unfolding check_request
check_request-Checked unsupported (failed text) old positive =
    refused (failed text) old (error_with (neg 1) text) refl
check_request-Checked unsupported (answered r) old positive =
    check_request_answered unsupported r old positive

find-assign_header :
    (k j v : Bytes) (hs : Headers)
    → find_header j (assign_header k v hs) ≡ (if k =? j then some v else find_header j hs)
unfolding find_header assign_header
find-assign_header k j v [] = refl
find-assign_header k j v ((i, w) ∷ hs) =
    ground (arith, =?_iff i k, =?_iff k j, =?_iff i j, find-assign_header k j v hs)

-- The value of the last field whose name in lower case is `key`.
unfoldable pub last_value : Bytes → List (Bytes × Bytes) → Option Bytes → Option Bytes
last_value key [] found = found
last_value key ((k, v) ∷ fields) found =
    last_value key fields (if map to_lower k =? key then some v else found)

normalize_fields_lem :
    (key : Bytes) (fields : List (Bytes × Bytes)) (hs : Headers)
    → find_header key (normalize_fields fields hs) ≡ last_value key fields (find_header key hs)
unfolding normalize_fields last_value
normalize_fields_lem key [] hs = refl
normalize_fields_lem key ((k, v) ∷ fields) hs =
    normalize_fields_lem key fields (assign_header (map to_lower k) v hs)
    ∙ ap (last_value key fields) (find-assign_header (map to_lower k) key v hs)

-- A header is found under its name in lower case, with the value of the last field that has the
-- name in any case.
pub find_header-normalize_headers :
    (key : Bytes) (res : Response)
    → find_header key (normalize_headers res).result ≡ last_value key res.fields none
unfolding normalize_headers find_header
find_header-normalize_headers key res = normalize_fields_lem key res.fields []
