-- ===== src/Improve.antt =====
-- `doImprove` of baseFeeAuto/mpool.go: raise the fee of one pending message.
mod Defs
pub mod Bounds
pub mod Repeat
pub mod Errors
unfoldable pub use Defs.*
