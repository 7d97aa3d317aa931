-- ===== src/HttpClient/Tests.antt =====
-- Examples of requests and responses.
use reduct_cpp.Common.{
  ◌≡◌, ◌≢◌, ◌++◌, Bool, no_error, refl, true, none, [], ◌∷◌, Bytes, codes, ℤ, arith,
}
use reduct_cpp.HttpClient.{Response, answered, check_request}
use reduct_cpp.HttpClient.Responses.{Checked, check_request-Checked}
use reduct_cpp.HttpClient.Methods.{Streaming, on_response}
use reduct_cpp.HttpClient.Streamed.{feed, feed-on_response}

-- A response with the version 1.19, and with a header in two spellings.
abbrev found_response : Response
found_response = record {
  status = 200;
  find = λ name. none;
  fields = (codes "X-A", codes "1") ∷ (codes "x-a", codes "2") ∷ [];
  body = [];
}

no_message : ℤ → ℤ → Bytes
no_message major minor = []

check_request-Checked_example :
    Checked (answered found_response) none (check_request no_message (answered found_response) none)
check_request-Checked_example =
    check_request-Checked no_message (answered found_response) none (λ e. absurd (omega (arith, e)))

-- A refused response, and a caller that collects what it sees.
abbrev refused_response : Response
refused_response = record found_response { status = 404 }

abbrev collect : Bytes → Bytes → Bool × Bytes
collect chunk seen = (true, seen ++ chunk)

abbrev nothing_seen : Streaming Bytes
nothing_seen = record { err = no_error; err_body = []; caller = [] }

four_ne : refused_response.status ≢ 0
four_ne e = absurd (omega (arith, e))

feed-on_response_example :
    (feed collect
      (codes "no" ∷ [])
      (on_response (λ headers seen. seen) refused_response nothing_seen)).caller
    ≡ []
feed-on_response_example =
    feed-on_response (λ headers seen. seen) collect refused_response (codes "no" ∷ []) nothing_seen
      refl four_ne
