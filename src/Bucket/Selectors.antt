-- ===== src/Bucket/Selectors.antt =====
-- What options of a query link are sent.
use reduct_cpp.Common.{
  ◌≡◌, ◌≢◌, Bool, true, false, not, ◌&&◌, Bytes, Except, ok, thrown, is_error, Result, ◌⊎◌,
}
use reduct_cpp.Serialisation.{QueryLinkOptions}
use reduct_cpp.Bucket.Links.{is_some, no_options}

-- Why options are refused: just one of a record's entry and time, an API version that cannot be
-- found out, or a new API and no record's entry.
abbrev pub Refused : Result Bytes → QueryLinkOptions → Except Bool → Type 0
Refused api options compatible =
    (is_some options.record_entry ≢ is_some options.record_timestamp)
    ⊎ ((is_error api.error ≡ true)
        ⊎ ((compatible ≡ ok true) × (is_some options.record_entry ≡ false)))

-- What the tests let pass, by the API version, the options given, and whether the API is new: an
-- error with its reason and no options, or no error and the options with both or none of a record's
-- entry and time, and both for a new API.
abbrev pub Passed :
    Result Bytes → QueryLinkOptions → Except Bool → Except (Result QueryLinkOptions) → Type 0
Passed api options compatible thrown = compatible ≡ thrown
Passed api options compatible (ok r) =
    ((is_error r.error ≡ true) × (r.result ≡ no_options) × Refused api options compatible)
    ⊎ ((is_error r.error ≡ false)
        × (r.result ≡ options)
        × (is_some options.record_entry ≡ is_some options.record_timestamp)
        × (new : Bool) × (compatible ≡ ok new)
        × ((new && not (is_some options.record_entry)) ≡ false))
