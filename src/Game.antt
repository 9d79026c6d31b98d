-- ===== src/Game.antt =====
-- state/state.cpp: the whole state of a game.
pub mod Defs
pub mod Updates
pub mod Territory
pub mod Lookup
