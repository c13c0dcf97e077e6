-- ===== src/Pool.antt =====
-- The message pool service of baseFeeAuto: mpoolQueue.go and mpool.go.
mod Defs
pub mod Sync
pub mod Clean
pub mod Adjust
pub mod Unordered
pub mod Labels
pub mod Jobs
pub mod Limits
pub mod Returns
pub mod Counted
pub mod StepFees
pub mod Bounded
pub mod Service
pub mod Overlap
unfoldable pub use Defs.*
