-- ===== src/IpSecurity.antt =====
-- packages/core/src/core/checks/implementations/ip-security.ts: may the address of a request in.
pub mod Lists
pub mod Check
pub mod Admission
pub mod Policy
pub mod Verdicts
pub mod Entry
pub mod Tests
