-- ===== src/DynamicRules.antt =====
-- packages/core/src/handlers/dynamic-rules.ts and models/dynamic-rule-snapshot.ts: the rules that an
-- agent sends while the program runs, and the snapshot that outlives it.
pub mod Snapshot
pub mod Manager
pub mod Updates
pub mod Restart
pub mod Tests
