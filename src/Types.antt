-- ===== src/Types.antt =====
-- src/engine/types.h, one module for each group of types.
pub mod Board
pub mod Castling
pub mod Moves
pub mod Scores
mod Tests
