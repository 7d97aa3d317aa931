-- ===== src/Http.antt =====
-- Requests and responses as `IHttpClient` states them (src/reduct/internal/http_client.h).
use reduct_cpp.Common.{
  ℕ, Bool, Option, none, some, List, [], ◌∷◌, Bytes, ◌=?◌, if◌then◌else◌, Except, Result,
}

-- `IHttpClient::Headers` is an unordered map: pairs in some order of iteration, each key once.
abbrev pub Headers : Type 0
Headers = List (Bytes × Bytes)

-- `headers.find(key)`
unfoldable pub find_header : Bytes → Headers → Option Bytes
find_header k [] = none
find_header k ((j, v) ∷ hs) = if j =? k then some v else find_header k hs

-- `headers.emplace(key, value)`: a key that is there keeps its value.
unfoldable pub emplace_header : Bytes → Bytes → Headers → Headers
emplace_header k v [] = (k, v) ∷ []
emplace_header k v ((j, w) ∷ hs) = if j =? k then (j, w) ∷ hs else (j, w) ∷ emplace_header k v hs

-- `headers[key] == value`: a key that is not there stands for the empty string.
abbrev pub header_is : Bytes → Bytes → Headers → Bool
header_is k value hs = elim (find_header k hs) [ none ↦ [] =? value | some v ↦ v =? value ]

-- The requests that change records. A body is given by its length and a callback that is asked
-- for a number of bytes behind an offset, and that may refuse to go on.
pub data Request : Type 0 where
  post : Bytes → Bytes → ℕ → Headers → (ℕ → ℕ → Except (Bool × Bytes)) → Request
  patch : Bytes → Bytes → Headers → Request
  delete : Bytes → Headers → Request

-- The methods of `IHttpClient` for such requests, over the state of the world outside.
abbrev pub Send : Type 0 → Type 0
Send W = Request → W → Result (Bytes × Headers) × W
