-- ===== src/Util.antt =====
-- src/util: the parts that the trees and the benchmarks share.
pub mod CliArguments
pub mod Queue
pub mod CoreConfiguration
pub mod CoreOrder
pub mod CoreSets
pub mod RwSpinlock
pub mod MpscQueue
