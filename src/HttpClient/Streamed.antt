-- ===== src/HttpClient/Streamed.antt =====
-- What the callbacks of a streamed `Get` see of a refused request.
use reduct_cpp.Common.{
  ◌≡◌, ◌≢◌, refl, pos, Bool, true, false, List, [], ◌∷◌, ◌++◌, Bytes, ◌==◌, if◌then◌else◌, is_error,
  arith,
}
use reduct_cpp.Http.{Headers}
use reduct_cpp.HttpClient.{Response}
use reduct_cpp.HttpClient.Methods.{Streaming, on_response, on_data}

-- The chunks of a body, as long as the callback goes on.
unfoldable pub feed : {S : Type 0} → (Bytes → S → Bool × S) → List Bytes → Streaming S → Streaming S
unfolding on_data
feed read_callback [] st = st
feed read_callback (chunk ∷ chunks) st =
    let rest = feed read_callback chunks (on_data read_callback chunk st).1 in
    if (on_data read_callback chunk st).0 then rest else (on_data read_callback chunk st).1

module _ {S : Type 0} (resp_callback : Headers → S → S) (read_callback : Bytes → S → Bool × S) where
  on_data_refused :
      (chunk : Bytes) (st : Streaming S)
      → is_error st.err ≡ true
      → on_data read_callback chunk st ≡ (true, record st { err_body = st.err_body ++ chunk })
  unfolding on_data
  on_data_refused chunk st h = rw (h, on_data) refl

  feed_refused :
      (chunks : List Bytes) (st : Streaming S)
      → is_error st.err ≡ true
      → (feed read_callback chunks st).caller ≡ st.caller
  unfolding feed
  feed_refused [] st h = refl
  feed_refused (chunk ∷ chunks) st h =
      rw (on_data_refused chunk st h)
        (feed_refused chunks (record st { err_body = st.err_body ++ chunk }) h)

  on_response_refused :
      (response : Response) (st : Streaming S)
      → (response.status == 200) ≡ false
      → (response.status == 0) ≡ false
      → on_response resp_callback response st
        ≡ record st { err = record st.err { code = pos response.status } }
  unfolding on_response
  on_response_refused response st other code = rw (other, on_response, code) refl

  -- Of a response with another status than 200 and 0 the callbacks of the caller see neither the
  -- headers nor the body, whatever chunks it comes in: the caller's variables stay as they are.
  pub feed-on_response :
      (response : Response) (chunks : List Bytes) (st : Streaming S)
      → (response.status == 200) ≡ false
      → response.status ≢ 0
      → (feed read_callback chunks (on_response resp_callback response st)).caller ≡ st.caller
  feed-on_response response chunks st other nonzero =
      let code : (response.status == 0) ≡ false = ground arith in
      rw (on_response_refused response st other code) (
        feed_refused chunks (record st { err = record st.err { code = pos response.status } })
          (rw code refl))
