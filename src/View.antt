-- ===== src/View.antt =====
-- `StateSyncer::UpdatePlayerStates`: what a player is shown of the state.
pub mod Flip
pub mod Turned
pub mod Turns
pub mod Around
pub mod Actors
pub mod Defs
pub mod Idle
pub mod Shown
pub mod Cells
pub mod Territory
