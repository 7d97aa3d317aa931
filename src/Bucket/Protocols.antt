-- ===== src/Bucket/Protocols.antt =====
-- Which protocol a bucket uses, by the version that the server names.
use reduct_cpp.Common.{ℕ, ◌<◌, ◌^◌, ◌&&◌, ◌≡◌, some, ok, leb, ◌==◌, arith}
use reduct_cpp.Common.Numbers.{to_string}
use reduct_cpp.HttpClient.Versions.{version, is_compatible_lem}
use reduct_cpp.Bucket.{Client, supports_batch_protocol_v2}

-- A bucket uses protocol v2 exactly for servers whose API version is 1.18 or a later one with the
-- major number 1; no version of two numbers below 2 ^ 31 makes the test throw.
pub supports_batch_protocol_v2_lem :
    {W : Type 0} (client : Client W) (w : W) (major minor : ℕ)
    → major < 2 ^ 31
    → minor < 2 ^ 31
    → client.api_version w ≡ some (version major minor)
    → supports_batch_protocol_v2 client w ≡ ok ((1 == major) && leb 18 minor)
unfolding supports_batch_protocol_v2 to_string version
supports_batch_protocol_v2_lem client w major minor hm hn named =
    rw (named, supports_batch_protocol_v2)
      (is_compatible_lem 1 18 major minor (omega arith) (omega arith) hm hn)
