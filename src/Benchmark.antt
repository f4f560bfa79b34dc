-- ===== src/Benchmark.antt =====
-- src/benchmark: the driver of the benchmarks.
pub mod Workload
pub mod Counts
pub mod Progress
pub mod Execution
mod Tests
