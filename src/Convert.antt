-- ===== src/Convert.antt =====
-- types/message.go: messages, receipts and execution traces of the node as the documents that the
-- program stores and shows.
pub mod Json
mod Defs
pub mod Sectors
pub mod Messages
pub mod Traces
pub mod Calls
unfoldable pub use Defs.*
