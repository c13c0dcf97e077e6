-- ===== src/BaseFee.antt =====
-- The base-fee monitor: api/baseFee.go, baseFee and cli/baseFee/main.go.
mod Defs
pub mod Observed
unfoldable pub use Defs.*
