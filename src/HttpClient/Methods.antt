-- ===== src/HttpClient/Methods.antt =====
-- The methods of `HttpClient` (src/reduct/internal/http_client.cc) over the library httplib, which
-- is not part of the repository. An exception that leaves a `noexcept` method is `thrown`.
use reduct_cpp.Common.{
  ℕ, ℤ, pos, Bool, true, Option, none, some, [], ◌++◌, Bytes, ◌==◌, is_empty, cut, if◌then◌else◌,
  Except, ok, ◌>>=◌, Error, no_error, is_error, Result,
}
use reduct_cpp.Http.{Headers}
use reduct_cpp.Serialisation.{failed_with, success}
use reduct_cpp.HttpClient.{
  Response, HttpResult, failed, answered, add_api_prefix, check_request, normalize_fields,
  normalize_headers, provide,
}

-- `httplib::Client` over the state of the world outside: the answer to a request. `stream` is
-- `Get` with callbacks for the response and for the chunks of its body, which may change variables
-- of the caller.
pub record Httplib (W : Type 0) : Type 1 where
  pub get : Bytes → W → HttpResult × W
  pub stream :
      {S : Type 0}
      → Bytes
      → Headers
      → (Response → S → S)
      → (Bytes → S → Bool × S)
      → S
      → W
      → HttpResult × S × W
  pub head : Bytes → Headers → W → HttpResult × W
  pub post : Bytes → Bytes → Bytes → W → HttpResult × W
  pub post_provided :
      Bytes → Headers → ℕ → (ℕ → ℕ → Except (Option Bytes)) → Bytes → W → HttpResult × W
  pub put : Bytes → Bytes → Bytes → W → HttpResult × W
  pub patch : Bytes → Headers → Bytes → Bytes → W → HttpResult × W
  pub delete : Bytes → Headers → W → HttpResult × W

-- `HttpOptions`; times count milliseconds.
pub record HttpOptions : Type 0 where
  pub api_token : Bytes
  pub ssl_verification : Bool
  pub connection_timeout : Option ℕ
  pub request_timeout : Option ℕ

-- What the constructor sets in the library's client.
pub record Configuration : Type 0 where
  pub certificate_verification : Bool
  pub keep_alive : Bool
  pub tcp_nodelay : Bool
  pub bearer_token : Option Bytes
  pub connection_timeout : Option ℕ
  pub read_timeout : Option ℕ
  pub write_timeout : Option ℕ

abbrev pub configuration : HttpOptions → Configuration
configuration options = record {
  certificate_verification = options.ssl_verification;
  keep_alive = true;
  tcp_nodelay = true;
  bearer_token = if is_empty options.api_token then none else some options.api_token;
  connection_timeout = options.connection_timeout;
  read_timeout = options.request_timeout;
  write_timeout = options.request_timeout;
}

-- What is read of a text that is given by `data()`: up to a zero byte.
unfoldable pub c_string : Bytes → Bytes
unfolding cut
c_string text = elim (cut 0 text) [ none ↦ text | some (front, _) ↦ front ]

-- The variables `err` and `err_body` of the streamed `Get`, and those of the caller's callbacks.
pub record Streaming (S : Type 0) : Type 0 where
  pub err : Error
  pub err_body : Bytes
  pub caller : S

-- The callback for the response.
unfoldable pub on_response : {S : Type 0} → (Headers → S → S) → Response → Streaming S → Streaming S
unfolding normalize_fields
on_response resp_callback response st =
    let err : Error =
      if response.status == 200 then st.err else record st.err { code = pos response.status } in
    if is_error err then record st { err = err } else record st {
      err = err;
      caller = resp_callback (normalize_fields response.fields []) st.caller;
    }

-- The callback for a chunk of the body.
unfoldable pub on_data :
    {S : Type 0} → (Bytes → S → Bool × S) → Bytes → Streaming S → Bool × Streaming S
on_data read_callback chunk st =
    if is_error st.err then (true, record st { err_body = st.err_body ++ chunk }) else (
      (read_callback chunk st.caller).0,
      record st { caller = (read_callback chunk st.caller).1 },
    )

module _ {W : Type 0} (lib : Httplib W) (unsupported : ℤ → ℤ → Bytes) (url : Bytes) where
  -- The result of a request that was checked, with the API version that is known afterwards.
  unfoldable pub checked_answer :
      {A : Type 0}
      → (Response → A)
      → A
      → HttpResult
      → Option Bytes
      → Except (Result A × Option Bytes)
  unfolding check_request
  checked_answer read empty res api_version = check_request unsupported res api_version >>= λ c.
      ok (
        if is_error c.0 then (failed_with empty c.0, c.1) else (elim res [
          | failed _ ↦ (success empty, c.1)
          | answered response ↦ (success (read response), c.1)
        ]))

  -- The body and the headers of a response.
  abbrev pub content : Response → Bytes × Headers
  content response = (response.body, (normalize_headers response).result)

  abbrev pub path_to : Bytes → Bytes
  path_to path = add_api_prefix url path

  -- `Get`
  unfoldable pub get : Bytes → Option Bytes → W → Except (Result Bytes × Option Bytes) × W
  unfolding checked_answer
  get path api_version w =
      let res = lib.get (path_to path) w in
      (checked_answer (λ r. r.body) [] res.0 api_version, res.1)

  -- `Get` with callbacks
  unfoldable pub get_stream :
      {S : Type 0}
      → Bytes
      → Headers
      → (Headers → S → S)
      → (Bytes → S → Bool × S)
      → Option Bytes
      → S
      → W
      → Except (Error × Option Bytes) × S × W
  unfolding check_request on_response on_data
  get_stream path headers resp_callback read_callback api_version s w =
      let res =
        lib.stream (path_to path) headers (on_response resp_callback) (on_data read_callback)
          (record { err = no_error; err_body = []; caller = s }) w in
      (check_request unsupported res.0 api_version, res.1.caller, res.2)

  -- `Head`
  unfoldable pub head :
      Bytes → Headers → Option Bytes → W → Except (Result Headers × Option Bytes) × W
  unfolding checked_answer c_string normalize_fields
  head path headers api_version w =
      let res = lib.head (c_string (path_to path)) headers w in
      (checked_answer (λ r. normalize_fields r.fields []) [] res.0 api_version, res.1)

  -- `PostWithResponse`
  unfoldable pub post_with_response :
      Bytes → Bytes → Bytes → Option Bytes → W → Except (Result Bytes × Option Bytes) × W
  unfolding checked_answer c_string
  post_with_response path body mime api_version w =
      let res = lib.post (c_string (path_to path)) (c_string body) (c_string mime) w in
      (checked_answer (λ r. r.body) [] res.0 api_version, res.1)

  -- `Post` of a body
  unfoldable pub post : Bytes → Bytes → Bytes → Option Bytes → W → Except (Error × Option Bytes) × W
  unfolding post_with_response c_string
  post path body mime api_version w =
      let answer = post_with_response path (c_string body) (c_string mime) api_version w in
      (answer.0 >>= λ r. ok (r.0.error, r.1), answer.1)

  -- `Post` with a callback that provides the body
  unfoldable pub post_provided :
      Bytes
      → Bytes
      → ℕ
      → Headers
      → (ℕ → ℕ → Except (Bool × Bytes))
      → Option Bytes
      → W
      → Except (Result (Bytes × Headers) × Option Bytes) × W
  unfolding checked_answer c_string provide normalize_headers
  post_provided path mime content_length headers callback api_version w =
      let res =
        lib.post_provided (path_to path) headers content_length (provide callback) (c_string mime)
          w in
      (checked_answer content ([], []) res.0 api_version, res.1)

  -- `Put`
  unfoldable pub put : Bytes → Bytes → Bytes → Option Bytes → W → Except (Error × Option Bytes) × W
  unfolding check_request c_string
  put path body mime api_version w =
      let res = lib.put (path_to path) body (c_string mime) w in
      (check_request unsupported res.0 api_version, res.1)

  -- `Patch`
  unfoldable pub patch :
      Bytes
      → Bytes
      → Headers
      → Option Bytes
      → W
      → Except (Result (Bytes × Headers) × Option Bytes) × W
  unfolding checked_answer normalize_headers
  patch path body headers api_version w =
      let res = lib.patch (path_to path) headers body [] w in
      (checked_answer content ([], []) res.0 api_version, res.1)

  -- `Delete`
  unfoldable pub delete :
      Bytes → Headers → Option Bytes → W → Except (Result (Bytes × Headers) × Option Bytes) × W
  unfolding checked_answer normalize_headers
  delete path headers api_version w =
      let res = lib.delete (path_to path) headers w in
      (checked_answer content ([], []) res.0 api_version, res.1)
