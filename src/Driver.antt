-- ===== src/Driver.antt =====
-- drivers/main_driver.cpp: the game from its first turn to its results.
pub mod Defs
pub mod Sound
pub mod Results
pub mod Calm
pub mod Forfeit
