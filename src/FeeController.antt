-- ===== src/FeeController.antt =====
-- baseFeeAuto/baseFeeController.go: the base-fee cap that the service aims at, the queue of
-- observed base fees behind it, and the tests on the size of the message pool. The gauge of
-- baseFeeAuto/prometheus.go that shows the cap stands here too.
mod Defs
pub mod Sort
pub mod Cap
pub mod Queue
pub mod NextCap
pub mod Unordered
pub mod Thresholds
unfoldable pub use Defs.*
