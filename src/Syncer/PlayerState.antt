-- ===== src/Syncer/PlayerState.antt =====
-- state/include/state/player_state.h: what a player sees and writes.
use codecharacter_simulator.Prelude.{ℕ, Bool, List, ℤ}
use codecharacter_simulator.Physics.Double.{Double}
use codecharacter_simulator.Physics.Vector.{Vector}
use codecharacter_simulator.Actor.Soldier.{SoldierStateName}

pub record PlayerMapElement : Type 0 where
  pub territory : Bool
  pub enemy_territory : Bool
  pub valid_territory : Bool
  pub build_tower : Bool

pub record PlayerSoldier (D : Double) : Type 0 where
  pub id : ℤ
  pub position : Vector D
  pub hp : ℤ
  pub state : SoldierStateName
  pub is_immune : Bool
  pub tower_target : ℤ
  pub soldier_target : ℤ
  pub destination : Vector D

pub record PlayerTower (D : Double) : Type 0 where
  pub id : ℤ
  pub position : Vector D
  pub hp : ℤ
  pub level : ℤ
  pub upgrade_tower : Bool
  pub suicide : Bool

-- The arrays of fixed length are lists.
pub record PlayerState (D : Double) : Type 0 where
  pub map : List (List PlayerMapElement)
  pub soldiers : List (PlayerSoldier D)
  pub enemy_soldiers : List (PlayerSoldier D)
  pub towers : List (PlayerTower D)
  pub enemy_towers : List (PlayerTower D)
  pub num_towers : ℕ
  pub num_enemy_towers : ℕ
  pub money : ℤ
