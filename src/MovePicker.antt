-- ===== src/MovePicker.antt =====
-- src/engine/movepick.h and movepick.cpp: `MovePicker`, which gives the moves of a position one at a
-- time, the most promising first.
pub mod AtPosition
pub mod Draining
pub mod Emission
pub mod Pending
pub mod Runs
pub mod Skipping
pub mod Scoring
pub mod Selecting
pub mod Sifting
pub mod Sorting
pub mod Stages
mod Tests
