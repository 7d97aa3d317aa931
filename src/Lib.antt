-- ===== src/Lib.antt =====
-- reduct-cpp: the client library of ReductStore, a store of time series of blobs.
--
-- A user's program holds buckets (`IBucket`). A bucket writes and reads records over an HTTP client;
-- many records go into one request and come back in one response, as a batch: their data is the body,
-- one record behind the other, and everything else stands in headers. There are two forms of these
-- headers, protocol v1 for one entry and v2 for several, and the API version that the server names
-- chooses between them. The data of a response reaches its records through a queue of chunks that they
-- share, and the records reach the user's callback through the queue of a worker thread.
--
-- The files model these parts (paths below src/reduct of the repository):
--   Common          what the code takes from the C++ language and library: byte strings, integers and
--                   their texts (std::stoull, std::stoi, std::to_string), std::map (Table), std::sort,
--                   exceptions (Except, Run), and `Error` and `Result` of error.h and result.h.
--   Format, Json    what it takes from fmt and nlohmann::json, as records with their documented laws;
--                   Format/Plain and Json/Plain are values of them for the examples.
--   Http            headers and requests as IHttpClient states them (internal/http_client.h).
--   HttpClient      internal/http_client.cc: the URL's prefix, CheckRequest, NormalizeHeaders, the
--                   content provider of Post, IsCompatible (HttpClient itself), and every method over
--                   httplib (Methods). Upload: sending a batch step by step. Streamed: callbacks of Get.
--   Batch           IBucket::Batch of bucket.h: adding records and Slice.
--   Stream          the member Read of a record, which stands in internal/batch_v1.cc,
--                   internal/batch_v2.cc and bucket.cc.
--   BatchV1         internal/batch_v1.cc: the helpers of both protocols and reading a response (BatchV1
--                   itself), and sending a batch (Process). Csv, Sendable and Trips: headers that are
--                   written and read; Quoted: values with a comma; Rejections: errors of records;
--                   Texts: the order of a response.
--   BatchV2         internal/batch_v2.cc: names and label deltas (Decode), reading records (Records),
--                   building requests (Build), and sending them (Process). History, Parts, Said,
--                   Collected, Reads, Responses, InTime and Total: the records of a response; Failures to
--                   Single: errors of records.
--   Journey         a batch on its whole way over protocol v1, through HttpClient, BatchV1 and Stream.
--   Time            internal/time_parse.h and ToIso8601Utc of client.cc: times as text, over the
--                   calendar of the C library, a parameter (Clock).
--   Serialisation   internal/serialisation.cc: bucket settings, query options and query links; how a
--                   member is read (Fields), replications (Replications, ReplicationAnswers),
--                   lifecycle policies (Lifecycles) and access tokens (Tokens).
--   Bucket          bucket.cc: callbacks and the worker's tasks (Callbacks, ReadRecord), queries
--                   (Query), links (Links), writing and batches (Batches), attachments (Attachments,
--                   MetaReads), information and settings (Info), removing, renaming and single reads
--                   (Manage), output operators (Output), and the worker's thread with the destructor
--                   that ends it (Worker). Proofs on them stand in the other modules of each folder.
--   Clients         client.cc: the server and its buckets (Clients itself), tokens (Tokens), and
--                   replications and lifecycle policies (Policies).
--
-- An operation keeps the name of its C++ function in lower case; the state of the world outside, with
-- the server in it, is a parameter `W` that every request changes. A function marked noexcept from
-- which an exception would leave ends the program; the model gives `thrown` or `raised` there, and
-- `undefined` where the behaviour is not defined.
--
-- The worker's thread, the user's threads and the destructor of a bucket take their steps in any order;
-- the queue between them (moodycamel) is a parameter (TaskQueue), with what is relied on: tasks of one
-- producer come out in their order, and a queue that is not empty gives one. A task is one step there.
--
-- A call that reads on another thread goes on while the worker runs its tasks: between the response's
-- headers and the end of the request, tasks run and more of the response arrives in any order (Event).
--
-- A time point counts nanoseconds in a signed number of 64 bits. A number of microseconds from a header
-- is turned into one as it wraps around (ns_of), where C++ leaves an overflow undefined; theorems on
-- times are stated for those of the system clock, below 2 ^ 63.
--
-- Two loops wait for something outside. The loop of `Read` runs over a list of rounds, each with the
-- chunks that arrive before it; a run that is still going on when the list ends is `waiting`. As many
-- rounds as the record has bytes are enough. The loop of a query runs on fuel; as much fuel as the
-- server has answers left, and one more, is enough.
--
-- Not modelled: the transport (httplib), the JSON and formatting libraries beyond what is used of
-- them, the calendar of the C library, pauses between polls, record times before the epoch, the
-- texts of exceptions, the lock around the API version, and the output of Error.
pub mod Common
pub mod Format
pub mod Json
pub mod Http
pub mod HttpClient
pub mod Batch
pub mod Stream
pub mod Time
pub mod BatchV1
pub mod BatchV2
pub mod Serialisation
pub mod Bucket
pub mod Clients
pub mod Journey
