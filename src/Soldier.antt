-- ===== src/Soldier.antt =====
-- state/actor/soldier.cpp and state/actor/soldier_states/: a soldier's state machine.
pub mod Scene
pub mod States
pub mod Machine
pub mod Settles
pub mod Health
pub mod Coherence
pub mod Spares
pub mod Targets
