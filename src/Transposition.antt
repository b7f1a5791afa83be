-- ===== src/Transposition.antt =====
-- src/engine/tt.h and src/engine/tt.cpp: the transposition table.
pub mod Entry
pub mod Host
pub mod Table
mod Tests
