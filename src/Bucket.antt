-- ===== src/Bucket.antt =====
-- The bucket's state and its HTTP client (src/reduct/bucket.cc,
-- src/reduct/internal/http_client.h). What a `noexcept` function would throw is `thrown` or
-- `raised`: the program is terminated there.
pub mod Callbacks
pub mod Calls
pub mod Worker
pub mod Turns
pub mod Joins
pub mod Protocols
pub mod ReadRecord
pub mod Query
pub mod Returns
pub mod Links
pub mod Selectors
pub mod Batches
pub mod Reports
pub mod Attachments
pub mod Meta
pub mod Info
pub mod Output
pub mod Manage
pub mod MetaReads
pub mod Renames
pub mod AttachmentTrip
pub mod Writes
pub mod Marks
mod WorkerTests
mod Tests
use reduct_cpp.Common.{
  ℕ, Bool, false, Option, none, some, List, [], ◌∷◌, ◌++◌, Bytes, codes, Except, ok, Error, Result,
}
use reduct_cpp.Http.{Headers, Send}
use reduct_cpp.Batch.{ReadableRecord}
use reduct_cpp.HttpClient.{is_compatible}

-- What a streamed request gave: the headers, if the callback for them was called, and the error.
pub record Fetched : Type 0 where
  pub headers : Option Headers
  pub error : Error

-- The methods of `IHttpClient` that a bucket and a client call, over the state of the world
-- outside. `get`, `head`, `post` and `put` are those without callbacks; `fetch` is `Head` or `Get`
-- with callbacks, `send` the requests that change records. The world that `fetch` leaves is that at
-- the end of the request, or at the response's headers where the rest of it is given separately.
pub record Client (W : Type 0) : Type 0 where
  pub api_version : W → Option Bytes
  pub get : Bytes → W → Result Bytes × W
  pub head : Bytes → W → Error × W
  pub post : Bytes → Bytes → W → Error × W
  pub post_with_response : Bytes → Bytes → W → Result Bytes × W
  pub put : Bytes → Bytes → W → Error × W
  pub fetch : Bool → Bytes → Headers → W → Fetched × W
  pub send : Send W

-- The members `name_`, `path_` and `io_path_` of `Bucket`.
pub record Bucket : Type 0 where
  pub name : Bytes
  pub path : Bytes
  pub io_path : Bytes

-- The constructor's initialisation of them.
unfoldable pub new_bucket : Bytes → Bucket
new_bucket name = record { name = name; path = codes "/b/" ++ name; io_path = codes "/io/" ++ name }

-- `ReadRecordCallback`, which may change the world and answers whether to go on.
abbrev pub ReadRecordCallback : Type 0 → Type 0
ReadRecordCallback W = ReadableRecord → W → Bool × W

-- `SupportsBatchProtocolV2`
unfoldable pub supports_batch_protocol_v2 : {W : Type 0} → Client W → W → Except Bool
unfolding is_compatible
supports_batch_protocol_v2 client w = elim (client.api_version w) [
  | none ↦ ok false
  | some version ↦ is_compatible (codes "1.18") version
]
