-- ===== src/Examples.antt =====
-- The programs under examples: those of their functions that do more than connect and log.
pub mod Register
pub mod Swap
pub mod Benchmark
pub mod Echo
