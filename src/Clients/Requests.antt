-- ===== src/Clients/Requests.antt =====
-- What the client sends for a bucket that may be missing, and for a token.
use reduct_cpp.Common.{
  ◌≡◌, ◌≢◌, ℤ, refl, sym, ap, ◌∙◌, pos, true, false, Option, none, some, Bytes, codes, ◌==ℤ◌, ok,
  Error, is_error, Result, ◌⊎◌, inl, inr, Bool-cases, ==ℤ_iff, Except-cases,
}
use reduct_cpp.Json.{Json}
use reduct_cpp.Time.{Clock}
use reduct_cpp.HttpClient.{is_compatible}
use reduct_cpp.Serialisation.{Settings, failed_with, success}
use reduct_cpp.Serialisation.Tokens.{
  Permissions, TokenCreateRequest, permission_members, token_request_members,
}
use reduct_cpp.Bucket.{Client}
use reduct_cpp.Clients.{bucket_path, build, get_bucket, create_bucket, get_or_create_bucket}
use reduct_cpp.Clients.Tokens.{
  token_path, token_version, supports_tokens_v2, token_document, post_legacy, post_document,
  post_token, create_token, finish_token,
}

differs : (a b : ℤ) → (a ==ℤ b) ≡ false → a ≢ b
differs a b h e = let t = (==ℤ_iff a b).1 e in cc

module _ {W : Type 0} (json : Json) (client : Client W) where
  -- What the answer to `Head` leads to.
  abbrev pub Outcome : Bytes → Settings → W → Error × W → Type 0
  Outcome name settings w answered =
      ((answered.0.code ≡ pos 0)
        × (get_or_create_bucket json client name settings w
            ≡ (ok (success (some (build json client name answered.1))), answered.1)))
      ⊎ (((answered.0.code ≡ pos 404)
            × (get_or_create_bucket json client name settings w
                ≡ create_bucket json client name settings answered.1))
          ⊎ ((answered.0.code ≢ pos 0)
              × (answered.0.code ≢ pos 404)
              × (get_or_create_bucket json client name settings w
                  ≡ (ok (failed_with none answered.0), answered.1))))

  found_step :
      (name : Bytes) (settings : Settings) (w : W)
      → ((client.head (bucket_path name) w).0.code ==ℤ pos 0) ≡ true
      → get_or_create_bucket json client name settings w ≡ (
        ok (success (some (build json client name (client.head (bucket_path name) w).1))),
        (client.head (bucket_path name) w).1,
      )
  unfolding get_or_create_bucket get_bucket
  found_step name settings w found = rw (found, get_bucket, get_or_create_bucket) refl

  missing_step :
      (name : Bytes) (settings : Settings) (w : W)
      → ((client.head (bucket_path name) w).0.code ==ℤ pos 0) ≡ false
      → ((client.head (bucket_path name) w).0.code ==ℤ pos 404) ≡ true
      → get_or_create_bucket json client name settings w
        ≡ create_bucket json client name settings (client.head (bucket_path name) w).1
  unfolding get_or_create_bucket get_bucket
  missing_step name settings w refused missing =
      rw (refused, get_bucket, missing, get_or_create_bucket, missing) refl

  refused_step :
      (name : Bytes) (settings : Settings) (w : W)
      → ((client.head (bucket_path name) w).0.code ==ℤ pos 0) ≡ false
      → ((client.head (bucket_path name) w).0.code ==ℤ pos 404) ≡ false
      → get_or_create_bucket json client name settings w ≡ (
        ok (failed_with none (client.head (bucket_path name) w).0),
        (client.head (bucket_path name) w).1,
      )
  unfolding get_or_create_bucket get_bucket
  refused_step name settings w refused other =
      rw (refused, get_bucket, other, get_or_create_bucket, other) refl

  -- A bucket that is asked for is the one of its name where the server finds it, and nothing is
  -- created; it is created exactly where the server's answer has the code 404; any other error is
  -- returned as it is, and nothing is created.
  pub get_or_create_bucket-Outcome :
      (name : Bytes) (settings : Settings) (w : W)
      → Outcome name settings w (client.head (bucket_path name) w)
  get_or_create_bucket-Outcome name settings w =
      elim (Bool-cases ((client.head (bucket_path name) w).0.code ==ℤ pos 0)) [
        | inl found ↦ inl ((==ℤ_iff _ (pos 0)).0 found, found_step name settings w found)
        | inr refused ↦ elim (Bool-cases ((client.head (bucket_path name) w).0.code ==ℤ pos 404)) [
          | inl missing ↦
              inr (
                inl ((==ℤ_iff _ (pos 404)).0 missing, missing_step name settings w refused missing))
          | inr other ↦ inr (
              inr (
                differs _ _ refused,
                differs _ _ other,
                refused_step name settings w refused other,
              ))
        ]
      ]

-- Moves that leave the lists of permissions as they are.
abbrev pub kept : Permissions → Permissions
kept permissions = permissions

module _ {W : Type 0} (json : Json) (clock : Clock) (client : Client W) where
  post_legacy_old :
      (name : Bytes) (p : Permissions) (answered : Result Bytes × W)
      → post_legacy json clock client kept name p false answered ≡ (ok answered.0, answered.1)
  unfolding post_legacy
  post_legacy_old name p (answered, w) = elim (Bool-cases (is_error answered.error)) [
    | inl refused ↦ rw (refused, post_legacy) refl
    | inr fine ↦ rw (fine, post_legacy) refl
  ]

  finish_old :
      (name : Bytes) (p : Permissions) (answered : Result Bytes × W)
      → finish_token json clock client (post_legacy json clock client kept name p false answered)
        ≡ finish_token json clock client (ok answered.0, answered.1)
  finish_old name p answered = ap (finish_token json clock client) (post_legacy_old name p answered)

  refused_written :
      (name : Bytes) (p : Permissions) (body : Bytes) (answered : Result Bytes × W)
      → (answered.0.error.code ==ℤ pos 0) ≡ false
      → (answered.0.error.code ==ℤ pos 422) ≡ true
      → json.dump (permission_members json clock p) ≡ ok body
      → finish_token json clock client (post_legacy json clock client kept name p true answered)
        ≡ finish_token json clock client (
          ok (client.post_with_response (token_path name) body answered.1).0,
          (client.post_with_response (token_path name) body answered.1).1,
        )
  unfolding post_legacy
  refused_written name p body answered failed refused written =
      rw (failed, refused, post_legacy, written) refl

  old_written :
      (name : Bytes) (request : TokenCreateRequest) (body : Bytes) (w : W)
      → json.dump (permission_members json clock request.permissions) ≡ ok body
      → post_token json clock client kept name request false w
        ≡ finish_token json clock client (
            post_legacy json clock client kept name request.permissions false
              (client.post_with_response (token_path name) body w))
  unfolding post_token token_document post_document
  old_written name request body w written =
      ap (λ d. post_document json clock client kept name request false d w) written

  -- The second attempt is what is done for an old server.
  post_legacy_refused :
      (name : Bytes) (request : TokenCreateRequest) (answered : Result Bytes × W)
      → (answered.0.error.code ==ℤ pos 0) ≡ false
      → (answered.0.error.code ==ℤ pos 422) ≡ true
      → finish_token json clock client
          (post_legacy json clock client kept name request.permissions true answered)
        ≡ post_token json clock client kept name request false answered.1
  unfolding post_legacy post_token token_document post_document
  post_legacy_refused name request answered failed refused =
      elim (Except-cases (json.dump (permission_members json clock request.permissions))) [
        | inl bad ↦ rw (failed, refused, post_legacy, bad) refl
        | inr (body, written) ↦
            refused_written name request.permissions body answered failed refused written
            ∙ sym (
                old_written name request body answered.1 written
                ∙ finish_old name request.permissions
                    (client.post_with_response (token_path name) body answered.1))
      ]

  post_token-post_legacy :
      (name : Bytes) (request : TokenCreateRequest) (body : Bytes) (w : W)
      → json.dump (token_request_members json clock request) ≡ ok body
      → post_token json clock client kept name request true w
        ≡ finish_token json clock client (
            post_legacy json clock client kept name request.permissions true
              (client.post_with_response (token_path name) body w))
  unfolding post_token token_document post_document
  post_token-post_legacy name request body w written =
      ap (λ d. post_document json clock client kept name request true d w) written

  token_version_known :
      (version : Bytes) (w : W)
      → client.api_version w ≡ some version
      → token_version json clock client w ≡ (success (some version), w)
  unfolding token_version
  token_version_known version w known = rw (known, token_version) refl

  create_token-post_token_known :
      (name version : Bytes) (request : TokenCreateRequest) (w : W)
      → client.api_version w ≡ some version
      → is_compatible (codes "1.19") version ≡ ok true
      → create_token json clock client kept name request w
        ≡ post_token json clock client kept name request true w
  unfolding create_token token_version supports_tokens_v2
  create_token-post_token_known name version request w known compatible =
      rw (known, token_version, create_token, compatible)
        (ap
          (λ (asked : Result (Option Bytes) × W).
            post_token json clock client kept name request true asked.1)
          (token_version_known version w known))

  -- Where the moves leave the lists of permissions as they are, the client knows that the server
  -- has API version 1.19 or later, and the document of the token can be written: if the server
  -- answers it with the code 422, it is then asked as an old server is, with the permissions only,
  -- and with the same outcome.
  pub create_token-post_token :
      (name version body : Bytes) (request : TokenCreateRequest) (w : W)
      → client.api_version w ≡ some version
      → is_compatible (codes "1.19") version ≡ ok true
      → json.dump (token_request_members json clock request) ≡ ok body
      → (client.post_with_response (token_path name) body w).0.error.code ≡ pos 422
      → create_token json clock client kept name request w
        ≡ post_token json clock client kept name request false
            (client.post_with_response (token_path name) body w).1
  create_token-post_token name version body request w known compatible written refused =
      create_token-post_token_known name version request w known compatible
      ∙ post_token-post_legacy name request body w written
      ∙ post_legacy_refused name request (client.post_with_response (token_path name) body w)
          (rw refused refl) (rw refused refl)
