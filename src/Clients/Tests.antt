-- ===== src/Clients/Tests.antt =====
-- Examples of the client.
use reduct_cpp.Common.{
  ◌≡◌, refl, pos, true, false, none, some, List, [], ◌∷◌, Bytes, codes, ok, Error, no_error,
}
use reduct_cpp.Json.Plain.{plain_json}
use reduct_cpp.Time.Plain.{plain_clock}
use reduct_cpp.HttpClient.{is_compatible}
use reduct_cpp.Serialisation.{Settings, failed_with, success}
use reduct_cpp.Serialisation.Tokens.{TokenCreateRequest, token_request_members}
use reduct_cpp.Bucket.{Client}
use reduct_cpp.Clients.{bucket_path}
use reduct_cpp.Clients.Tokens.{token_path, post_token, create_token}
use reduct_cpp.Clients.Requests.{
  Outcome, get_or_create_bucket-Outcome, kept, create_token-post_token,
}

abbrev missing : Error
missing = record { code = pos 404; message = codes "No such bucket" }

abbrev unknown_field : Error
unknown_field = record { code = pos 422; message = codes "Unknown field" }

-- A server of version 1.19 that notes the paths it is asked for, has no bucket yet, and does not
-- know the new document of a token.
abbrev noting_client : Client (List Bytes)
noting_client = record {
  api_version = λ w. some (codes "1.19");
  get = λ path w. (success [], path ∷ w);
  head = λ path w. (missing, path ∷ w);
  post = λ path body w. (no_error, path ∷ w);
  post_with_response = λ path body w. (failed_with [] unknown_field, path ∷ w);
  put = λ path body w. (no_error, path ∷ w);
  fetch = λ head path headers w. (record { headers = none; error = missing }, path ∷ w);
  send = λ request w. (success ([], []), w);
}

abbrev unset : Settings
unset = record {
  max_block_size = none;
  quota_type = none;
  quota_size = none;
  max_block_records = none;
}

get_or_create_bucket-Outcome_example :
    Outcome plain_json noting_client (codes "b") unset [] (missing, bucket_path (codes "b") ∷ [])
get_or_create_bucket-Outcome_example =
    get_or_create_bucket-Outcome plain_json noting_client (codes "b") unset []

abbrev reader : TokenCreateRequest
reader = record {
  permissions = record { full_access = false; read = codes "b" ∷ []; write = [] };
  expires_at = none;
  ttl = some 60;
  ip_allowlist = [];
}

version_new : is_compatible (codes "1.19") (codes "1.19") ≡ ok true
unfolding is_compatible
version_new = refl

reader_written :
    plain_json.dump (token_request_members plain_json plain_clock reader) ≡ ok (codes "{}")
unfolding plain_json
reader_written = refl

create_token-post_token_example :
    create_token plain_json plain_clock noting_client kept (codes "t") reader []
    ≡ post_token plain_json plain_clock noting_client kept
        (codes "t")
        reader
        false
        (token_path (codes "t") ∷ [])
create_token-post_token_example =
    create_token-post_token plain_json plain_clock noting_client (codes "t") (codes "1.19")
      (codes "{}") reader [] refl version_new reader_written refl
