-- ===== src/Search.antt =====
-- src/engine/search.cpp: pieces of the search that stand by themselves.
pub mod TableValues
mod Tests
