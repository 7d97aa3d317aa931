-- ===== src/Serialisation/Tokens.antt =====
-- The documents of access tokens (`ParseTokenInfo` of src/reduct/internal/serialisation.cc, and the
-- documents of src/reduct/client.cc).
use reduct_cpp.Common.{ℕ, ℤ, Bool, false, Option, List, [], map, Bytes, codes, Except, ok, ◌>>=◌}
use reduct_cpp.Json.{Json}
use reduct_cpp.Time.{Clock, to_iso8601_utc}
use reduct_cpp.Serialisation.{set_some}
use reduct_cpp.Serialisation.Fields.{
  for_each, need, text_at, flag_at, texts_at, as_texts, value_or, optional_at,
}
use reduct_cpp.Serialisation.Lifecycles.{as_time}

-- `IClient::Permissions`
pub record Permissions : Type 0 where
  pub full_access : Bool
  pub read : List Bytes
  pub write : List Bytes

-- `IClient::Token`
pub record Token : Type 0 where
  pub name : Bytes
  pub created_at : ℤ
  pub is_provisioned : Bool
  pub expires_at : Option ℤ
  pub ttl : Option ℕ
  pub last_access : Option ℤ
  pub ip_allowlist : List Bytes
  pub is_expired : Bool

-- `IClient::FullTokenInfo`: a token and its permissions.
pub record FullTokenInfo : Type 0 where
  pub token : Token
  pub permissions : Permissions

-- `IClient::TokenCreateRequest`
pub record TokenCreateRequest : Type 0 where
  pub permissions : Permissions
  pub expires_at : Option ℕ
  pub ttl : Option ℕ
  pub ip_allowlist : List Bytes

module _ (json : Json) (clock : Clock) where
  -- The fields that `Token` and `FullTokenInfo` share.
  unfoldable pub token_of : json.J → Except Token
  unfolding need as_time optional_at text_at value_or as_texts
  token_of doc = do
    created ← need json (codes "created_at") doc
    created_at ← as_time json clock created
    expires_at ← optional_at json (as_time json clock) (codes "expires_at") doc
    last_access ← optional_at json (as_time json clock) (codes "last_access") doc
    ttl ← optional_at json json.as_number (codes "ttl") doc
    name ← text_at json (codes "name") doc
    is_provisioned ← value_or json json.as_boolean false (codes "is_provisioned") doc
    ip_allowlist ← value_or json (as_texts json) [] (codes "ip_allowlist") doc
    is_expired ← value_or json json.as_boolean false (codes "is_expired") doc
    ok (record {
      name = name;
      created_at = created_at;
      is_provisioned = is_provisioned;
      expires_at = expires_at;
      ttl = ttl;
      last_access = last_access;
      ip_allowlist = ip_allowlist;
      is_expired = is_expired;
    })

  unfoldable pub permissions_of : json.J → Except Permissions
  unfolding need flag_at texts_at
  permissions_of doc = do
    permissions ← need json (codes "permissions") doc
    full_access ← flag_at json (codes "full_access") permissions
    read ← texts_at json (codes "read") permissions
    write ← texts_at json (codes "write") permissions
    ok (record { full_access = full_access; read = read; write = write })

  -- `ParseTokenInfo`, which throws itself.
  unfoldable pub parse_token_info : json.J → Except FullTokenInfo
  unfolding token_of permissions_of
  parse_token_info doc = do
    token ← token_of doc
    permissions ← permissions_of doc
    ok (record { token = token; permissions = permissions })

  -- The loop of `GetTokenList`.
  unfoldable pub token_list : json.J → Except (List Token)
  unfolding need for_each token_of
  token_list doc = need json (codes "tokens") doc >>= λ v. for_each token_of (json.elements v)

  -- `full_access`, `read` and `write` in a document.
  unfoldable pub permission_members : Permissions → json.J
  permission_members p = json.set (codes "write") (json.array (map json.text p.write)) (
      json.set (codes "read") (json.array (map json.text p.read))
        (json.set (codes "full_access") (json.boolean p.full_access) json.null))

  -- What `CreateToken` sends to servers from 1.19 on.
  unfoldable pub token_request_members : TokenCreateRequest → json.J
  unfolding permission_members set_some to_iso8601_utc
  token_request_members request =
      json.set (codes "ip_allowlist") (json.array (map json.text request.ip_allowlist)) (
        set_some json json.number (codes "ttl") request.ttl (
          set_some json (λ t. json.text (to_iso8601_utc clock t)) (codes "expires_at")
            request.expires_at
            (json.set (codes "permissions") (permission_members request.permissions) json.null)))
