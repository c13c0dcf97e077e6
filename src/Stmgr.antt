-- ===== src/Stmgr.antt =====
-- stmgr/utils.go: the table of actor methods and the parsing of message parameters.
mod Defs
pub mod Table
pub mod Registry
unfoldable pub use Defs.*
