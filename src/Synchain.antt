-- ===== src/Synchain.antt =====
-- The chain synchroniser of synchain: height.go, parseMessage.go and sync.go.
pub mod Database
pub mod Settings
mod Defs
pub mod Window
pub mod Heights
pub mod Progress
pub mod Restart
pub mod Jobs
pub mod Gathered
pub mod Stored
pub mod Aside
pub mod Rounds
pub mod Reaches
pub mod Interleaved
pub mod Growing
pub mod Marked
pub mod Ended
pub mod NoGap
pub mod Gapless
pub mod Reachable
pub mod Main
unfoldable pub use Defs.*
