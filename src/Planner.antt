-- ===== src/Planner.antt =====
-- state/src/path_planner: how a soldier finds its way.
pub mod Defs
pub mod Fuel
pub mod Ways
pub mod Steps
pub mod Plan
pub mod Positions
pub mod Graph
