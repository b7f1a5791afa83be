-- ===== src/Position.antt =====
-- src/engine/position.h and position.cpp: `Position`, a chess position with what is computed from it.
pub mod Attackers
pub mod Castling
pub mod Exchange
pub mod Keeping
pub mod KeyUpdate
pub mod Keying
pub mod Keys
pub mod Making
pub mod MoveTests
pub mod Placement
pub mod Placing
pub mod Restoring
pub mod Play
pub mod State
pub mod TakingBack
pub mod Undoing
mod Tests
