-- ===== src/Region.antt =====
-- Where a session is recorded and from where it is served: src/region-registry.ts, src/residency-rt.ts and
-- src/cascade.ts.
pub mod Registry
pub mod Residency
pub mod Cascade
pub mod Ladder
mod Tests
