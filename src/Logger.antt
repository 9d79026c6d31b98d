-- ===== src/Logger.antt =====
-- logger/logger.cpp: the log of a game.
pub mod Messages
pub mod Errors
pub mod Towers
pub mod Defs
pub mod Codes
pub mod Matches
pub mod Loops
pub mod Frames
