-- ===== src/Clients/Tokens.antt =====
-- Access tokens (`GetTokenList`, `GetToken`, `CreateToken`, `RemoveToken`, `RotateToken` and `Me`).
use reduct_cpp.Common.{
  pos, Bool, true, false, ◌&&◌, Option, none, some, List, [], ◌++◌, Bytes, codes, ◌==ℤ◌,
  if◌then◌else◌, Except, ok, thrown, ◌>>=◌, Error, is_error, Result,
}
use reduct_cpp.Json.{Json}
use reduct_cpp.Time.{Clock}
use reduct_cpp.HttpClient.{is_compatible}
use reduct_cpp.Http.{delete}
use reduct_cpp.Serialisation.{failed_with, success}
use reduct_cpp.Serialisation.Fields.{text_at}
use reduct_cpp.Serialisation.Tokens.{
  Permissions, Token, FullTokenInfo, TokenCreateRequest, parse_token_info, token_list,
  permission_members, token_request_members,
}
use reduct_cpp.Bucket.{Client}
use reduct_cpp.Bucket.Info.{read_answer, get_parsed, succeeding}

abbrev pub token_path : Bytes → Bytes
token_path name = codes "/tokens/" ++ name

module _ {W : Type 0} (json : Json) (clock : Clock) (client : Client W) where
  -- `GetTokenList`
  unfoldable pub get_token_list : W → Result (List Token) × W
  unfolding get_parsed token_list
  get_token_list w =
      get_parsed json client (codes "/tokens") [] (succeeding json (token_list json clock)) w

  -- A token; none stands for the empty value that comes with an error.
  abbrev info_of : json.J → Except (Option FullTokenInfo)
  info_of doc = parse_token_info json clock doc >>= λ info. ok (some info)

  -- `GetToken`
  unfoldable pub get_token : Bytes → W → Result (Option FullTokenInfo) × W
  unfolding get_parsed parse_token_info
  get_token name w = get_parsed json client (token_path name) none (succeeding json info_of) w

  -- `Me`
  unfoldable pub me : W → Result (Option FullTokenInfo) × W
  unfolding get_parsed parse_token_info
  me w = get_parsed json client (codes "/me") none (succeeding json info_of) w

  -- `RemoveToken`
  unfoldable pub remove_token : Bytes → W → Error × W
  remove_token name w =
      let sent = client.send (delete (token_path name) []) w in (sent.0.error, sent.1)

  -- The value of a new token in an answer.
  unfoldable pub value_of : Result Bytes → Result Bytes
  unfolding read_answer text_at
  value_of answered = read_answer json [] (succeeding json (text_at json (codes "value"))) answered

  -- `RotateToken`
  unfoldable pub rotate_token : Bytes → W → Result Bytes × W
  unfolding value_of
  rotate_token name w =
      let answered =
        client.post_with_response (token_path name ++ codes "/rotate") (codes "{}") w in
      (value_of answered.0, answered.1)

  -- The API version, for which the server is asked where it is not known.
  unfoldable pub token_version : W → Result (Option Bytes) × W
  token_version w = elim (client.api_version w) [
    | some version ↦ (success (some version), w)
    | none ↦
        let got = client.get (codes "/info") w in
        if is_error got.0.error
        then (failed_with none got.0.error, got.1)
        else (success (client.api_version got.1), got.1)
  ]

  unfoldable pub supports_tokens_v2 : Option Bytes → Except Bool
  unfolding is_compatible
  supports_tokens_v2 none = ok false
  supports_tokens_v2 (some version) = is_compatible (codes "1.19") version

  -- The document that is posted first: for new servers with all that is asked for, for old ones
  -- with the permissions only.
  unfoldable pub token_document : Bool → TokenCreateRequest → json.J
  unfolding token_request_members permission_members
  token_document true request = token_request_members json clock request
  token_document false request = permission_members json clock request.permissions

  -- The second attempt, with a document of the old kind, where the server does not know the new
  -- one. `moved` is what the moves into the first document leave of the permissions.
  unfoldable pub post_legacy :
      (Permissions → Permissions)
      → Bytes
      → Permissions
      → Bool
      → Result Bytes × W
      → Except (Result Bytes) × W
  unfolding permission_members
  post_legacy moved name permissions supports_v2 (answered, w) =
      if is_error answered.error && (supports_v2 && answered.error.code ==ℤ pos 422)
      then (elim (json.dump (permission_members json clock (moved permissions))) [
        | thrown ↦ (thrown, w)
        | ok body ↦
            let again = client.post_with_response (token_path name) body w in (ok again.0, again.1)
      ])
      else (ok answered, w)

  abbrev pub finish_token : Except (Result Bytes) × W → Except (Result Bytes) × W
  finish_token (thrown, w) = (thrown, w)
  finish_token (ok answered, w) = (ok (value_of answered), w)

  -- Posting a document, where it could be written.
  unfoldable pub post_document :
      (Permissions → Permissions)
      → Bytes
      → TokenCreateRequest
      → Bool
      → Except Bytes
      → W
      → Except (Result Bytes) × W
  post_document moved name request supports_v2 thrown w = (thrown, w)
  post_document moved name request supports_v2 (ok body) w = finish_token (
      post_legacy moved name request.permissions supports_v2
        (client.post_with_response (token_path name) body w))

  -- Posting the document, for a server whose kind is known.
  unfoldable pub post_token :
      (Permissions → Permissions)
      → Bytes
      → TokenCreateRequest
      → Bool
      → W
      → Except (Result Bytes) × W
  unfolding token_document post_document
  post_token moved name request supports_v2 w =
      post_document moved name request supports_v2 (json.dump (token_document supports_v2 request))
        w

  -- `CreateToken`
  unfoldable pub create_token :
      (Permissions → Permissions) → Bytes → TokenCreateRequest → W → Except (Result Bytes) × W
  unfolding token_version supports_tokens_v2 post_token
  create_token moved name request w =
      let asked = token_version w in
      if is_error asked.0.error
      then (ok (failed_with [] asked.0.error), asked.1)
      else (elim (supports_tokens_v2 asked.0.result) [
        | thrown ↦ (thrown, asked.1)
        | ok supports_v2 ↦ post_token moved name request supports_v2 asked.1
      ])

  -- `CreateToken` with permissions only
  unfoldable pub create_token_permissions :
      (Permissions → Permissions) → Bytes → Permissions → W → Except (Result Bytes) × W
  unfolding create_token
  create_token_permissions moved name permissions w =
      create_token moved name
        (record { permissions = permissions; expires_at = none; ttl = none; ip_allowlist = [] }) w
