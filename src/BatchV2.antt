-- ===== src/BatchV2.antt =====
-- Batch protocol v2 (src/reduct/internal/batch_v2.cc). The parsers stand in `BatchV2.Decode`, the
-- records built from a response in `BatchV2.Records`, the requests in `BatchV2.Build`, and sending
-- them in `BatchV2.Process`.
pub mod Decode
pub mod Records
pub mod Build
pub mod History
pub mod Parts
pub mod Said
pub mod Collected
pub mod Reads
pub mod Responses
pub mod InTime
pub mod Total
pub mod Failures
pub mod Filed
pub mod Replies
pub mod Reported
pub mod Answers
pub mod SingleErrors
pub mod Single
pub mod Process
pub mod Labels
pub mod HeaderTrip
pub mod Digits
pub mod Names
pub mod Headers
pub mod Deltas
pub mod Requests
mod ReadTests
mod Tests
