-- ===== src/Mock.antt =====
-- The package `mock`: faults at the byte boundaries of the conformance harness.
pub mod Faults
