-- ===== src/Game/Territory.antt =====
-- The territory of both players over a whole `State::Update`.
pub mod Defs
pub mod Managers
pub mod Soldiers
pub mod Updates
