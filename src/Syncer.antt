-- ===== src/Syncer.antt =====
-- state/state_syncer/: the commands of the players, validated and passed on to the state.
pub mod PlayerState
pub mod Commands
pub mod Accepts
pub mod Attacks
pub mod Strikes
pub mod Turns
pub mod Bills
pub mod Keeps
pub mod Orders
pub mod Turnover
