-- ===== src/Tests.antt =====
-- Concrete inputs: a `double` of whole numbers, a small game, and the theorems applied to it.
pub mod Doubles
pub mod Money
pub mod Soldiers
pub mod Towers
pub mod Rounds
pub mod Commands
pub mod Turns
pub mod Views
pub mod Games
pub mod Drivers
pub mod Logs
pub mod Planners
