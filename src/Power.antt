-- ===== src/Power.antt =====
-- The power calculator: cli/pow/main.go, cli/pow/calcu_fun.go and pow/pow.go.
mod Defs
pub mod Text
pub mod Days
pub mod Rows
pub mod Measured
pub mod Lines
pub mod Panics
unfoldable pub use Defs.*
