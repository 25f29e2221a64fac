-- ===== src/Base64.antt =====
-- packages/core/src/detection-engine/base64-decode.ts: base64 candidates in a content, decoded.
pub mod Strict
pub mod RoundTrip
pub mod Strictness
pub mod Accepted
pub mod Shape
pub mod Exact
pub mod Gunzip
pub mod Bounded
pub mod Prefix
pub mod Ratios
pub mod Candidates
pub mod Budget
pub mod Tests
