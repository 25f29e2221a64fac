-- ===== src/RateLimit.antt =====
-- packages/core/src/handlers/rate-limit.ts: the rate-limit manager of the HTTP pipeline.
-- Times are milliseconds, `Date.now()`; a window is in seconds. The source divides the clock by
-- 1000 and compares in seconds, which is the same comparison in exact arithmetic.
pub mod Window
pub mod Redis
pub mod Manager
pub mod History
pub mod Fallback
pub mod Calls
pub mod Decision
pub mod Tests
