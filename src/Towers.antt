-- ===== src/Towers.antt =====
-- state/tower_manager/: the towers of one player and the territory that they hold.
pub mod Defs
pub mod Territory
pub mod Handlers
pub mod Cells
pub mod Counts
pub mod Invariant
pub mod Keeps
pub mod Updates
pub mod Frame
pub mod Funds
pub mod Creation
pub mod Razes
