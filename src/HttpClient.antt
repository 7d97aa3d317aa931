-- ===== src/HttpClient.antt =====
-- `HttpClient` and `IsCompatible` (src/reduct/internal/http_client.cc, http_options.h). What
-- httplib does is given: the result of a request and how it finds a header are arguments.
pub mod Versions
pub mod Responses
pub mod Upload
pub mod Methods
pub mod Streamed
mod Tests
use Prim.Native.Nat.{min}
use mathlib.Core.Option
use reduct_cpp.Common.{
  ℕ, ◌+◌, ◌-◌, Bool, true, false, not, ◌&&◌, ◌||◌, Option, none, some, List, [], ◌∷◌, ◌++◌, map,
  Bytes, codes, length, get_elem?, take, drop, ltb, leb, ◌==◌, ◌=?◌, is_empty, starts_with,
  ends_with, cut, getlines, if◌then◌else◌, Except, ok, thrown, ◌>>=◌, ℤ, pos, neg, ◌==ℤ◌, ◌≤?ℤ◌,
  Error, no_error, is_error, Result,
}
use reduct_cpp.Common.Numbers.{stoi}
use reduct_cpp.Http.{Headers}

abbrev pub header_error : Bytes
header_error = codes "x-reduct-error"

abbrev pub header_api : Bytes
header_api = codes "x-reduct-api"

-- `kApiPrefix`
abbrev pub api_path : Bytes
api_path = codes "/api/v1"

-- `kMaxChunkSize`
abbrev pub max_chunk_size : ℕ
max_chunk_size = 512000

-- `REDUCT_CPP_MAJOR_VERSION`, which CMakeLists.txt sets.
abbrev pub major_version : ℤ
major_version = pos 1

-- `httplib::Response`, as far as it is read.
pub record Response : Type 0 where
  pub status : ℕ
  -- `headers.find(name)`, which ignores the case of names
  pub find : Bytes → Option Bytes
  -- the headers in the order of iteration
  pub fields : List (Bytes × Bytes)
  pub body : Bytes

-- `httplib::Result`: an error with its text, or a response.
pub data HttpResult : Type 0 where
  failed : Bytes → HttpResult
  answered : Response → HttpResult

-- The position behind "://"; where it is missing, `npos + 3` wraps around to 2.
pub scheme_end : Bytes → ℕ → ℕ
scheme_end [] at = 2
scheme_end (c ∷ s) at = if starts_with (codes "://") (c ∷ s) then at + 3 else scheme_end s (at + 1)

-- `base_url` and `path_prefix` of the constructor.
pub split_url : Bytes → Bytes × Bytes
unfolding scheme_end cut
split_url url =
    let start = scheme_end url 0 in
    elim (cut b'/' (drop start url)) [
      | none ↦ (url, [])
      | some (host, path) ↦ (take start url ++ host, b'/' ∷ path)
    ]

-- `api_prefix_`
pub api_prefix : Bytes → Bytes
unfolding split_url
api_prefix url =
    let path_prefix = (split_url url).1 in
    if ends_with b'/' path_prefix
    then take (length path_prefix - 1) path_prefix ++ api_path
    else path_prefix ++ api_path

-- `AddApiPrefix`
pub add_api_prefix : Bytes → Bytes → Bytes
unfolding api_prefix
add_api_prefix url path = api_prefix url ++ path

abbrev pub error_with : ℤ → Bytes → Error
error_with code message = record { code = code; message = message }

-- The part of `CheckRequest` for a response with an API version; the message holds the two numbers.
unfoldable pub check_version : (ℤ → ℤ → Bytes) → Bytes → Except Error
unfolding cut stoi
check_version unsupported version = elim (cut b'.' version) [
  | none ↦ ok (error_with (neg 1) (codes "Invalid API version"))
  | some (before, behind) ↦ (do
    major ← stoi 10 before
    minor ← stoi 10 behind
    ok (if major ==ℤ major_version then no_error else error_with (neg 1) (unsupported major minor)))
]

-- `CheckRequest`, over the member `api_version_`. The warning about an old server goes to the error
-- output and is not modelled.
unfoldable pub check_request :
    (ℤ → ℤ → Bytes) → HttpResult → Option Bytes → Except (Error × Option Bytes)
unfolding check_version
check_request unsupported (failed text) api_version = ok (error_with (neg 1) text, api_version)
check_request unsupported (answered res) api_version =
    let message = Option.get_or (res.find header_error) (codes "Unknown error") in
    elim (res.status == 200) [
      | false ↦ ok (error_with (pos res.status) message, api_version)
      | true ↦ elim (res.find header_api) [
        | none ↦ ok (no_error, api_version)
        | some version ↦ check_version unsupported version >>= λ err.
            ok (if is_error err then (err, api_version) else (err, some version))
      ]
    ]

-- `tolower` in the "C" locale.
abbrev pub to_lower : ℕ → ℕ
to_lower c = if leb b'A' c && leb c b'Z' then c + 32 else c

-- `headers[key] = value` of an unordered map.
unfoldable pub assign_header : Bytes → Bytes → Headers → Headers
assign_header k v [] = (k, v) ∷ []
assign_header k v ((j, w) ∷ hs) = if j =? k then (j, v) ∷ hs else (j, w) ∷ assign_header k v hs

-- The loop of `NormalizeHeaders`, which stands in `Get` and `Head` too.
unfoldable pub normalize_fields : List (Bytes × Bytes) → Headers → Headers
unfolding assign_header
normalize_fields [] headers = headers
normalize_fields ((k, v) ∷ fields) headers =
    normalize_fields fields (assign_header (map to_lower k) v headers)

-- `NormalizeHeaders`
unfoldable pub normalize_headers : Response → Result Headers
unfolding normalize_fields
normalize_headers res = record { result = normalize_fields res.fields []; error = no_error }

-- The content provider of `Post`: nothing is written where the callback refuses or has no bytes.
unfoldable pub provide : (ℕ → ℕ → Except (Bool × Bytes)) → ℕ → ℕ → Except (Option Bytes)
provide callback offset size = do
  chunk ← callback offset (min size max_chunk_size)
  ok (
      if not chunk.0 || is_empty chunk.1
      then none
      else some (take (min (length chunk.1) (min size max_chunk_size)) chunk.1))

pub parse_items : List Bytes → Except (List ℤ)
unfolding stoi
parse_items [] = ok []
parse_items (item ∷ rest) = do
  number ← stoi 10 item
  numbers ← parse_items rest
  ok (number ∷ numbers)

-- The lambda `parse_version` of `IsCompatible`.
pub parse_version : Bytes → Except (List ℤ)
unfolding parse_items getlines
parse_version version = parse_items (getlines b'.' version)

abbrev pub compare_versions : List ℤ → List ℤ → Bool
compare_versions (major ∷ minor ∷ []) (major' ∷ minor' ∷ []) =
    (major ==ℤ major') && (minor ≤?ℤ minor')
compare_versions _ _ = false

-- `IsCompatible`
unfoldable pub is_compatible : Bytes → Bytes → Except Bool
unfolding parse_version
is_compatible min_version version = if is_empty version then ok false else (do
  lowest ← parse_version min_version
  current ← parse_version version
  ok (compare_versions lowest current))
