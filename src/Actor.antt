-- ===== src/Actor.antt =====
-- state/actor/: the part that every actor has (actor.h, actor.cpp), soldiers' and towers' data.
pub mod Base
pub mod Soldier
pub mod Tower
pub mod Any
