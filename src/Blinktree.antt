-- ===== src/Blinktree.antt =====
-- src/indices/blinktree: the B-link tree, its nodes, its trees and their clients.
pub mod Node
pub mod Tree
pub mod NodePath
pub mod Latched
pub mod OptimisticLock
pub mod EpochManager
pub mod Optimistic
pub mod Sample
pub mod ConsistencyChecker
pub mod ThreadBenchmark
pub mod Tasks
pub mod InsertTask
pub mod OptimisticTasks
pub mod Traversal
