-- ===== src/Logger/Messages.antt =====
-- logger/proto/game.proto: the messages of the log. A field that is not set is 0 or false, and the
-- reader cannot tell it from one that is; integers are taken to fit their 32 or 64 bits.
use codecharacter_simulator.Prelude.{ℕ, Bool, List, ℤ}

-- The ASCII codes of a text.
abbrev pub Text : Type 0
Text = List ℕ

-- `SOLDIER_STATE`.
pub data SoldierMode : Type 0 where
  idle_mode move_mode attack_mode dead_mode : SoldierMode

pub record SoldierMessage : Type 0 where
  pub hp : ℤ
  pub x : ℤ
  pub y : ℤ
  pub state : SoldierMode
  pub attack_target_x : ℤ
  pub attack_target_y : ℤ

pub record TowerMessage : Type 0 where
  pub id : ℤ
  pub player_id : ℕ
  pub hp : ℤ
  pub x : ℤ
  pub y : ℤ
  pub is_base : Bool
  pub tower_level : ℤ
  pub is_dead : Bool

-- The message `GameState`, one for each turn; each player's errors stand in a `PlayerError`.
pub record Frame : Type 0 where
  pub soldiers : List SoldierMessage
  pub towers : List TowerMessage
  pub money : List ℤ
  pub instruction_counts : List ℤ
  pub player_errors : List (List ℕ)

-- The message `Game`. `error_map` is a map from codes to texts.
pub record GameLog : Type 0 where
  pub tower_ranges : List ℤ
  pub tower_max_hps : List ℤ
  pub soldier_max_hp : ℤ
  pub error_map : List (ℕ × Text)
  pub inst_limit_turn : ℤ
  pub inst_limit_game : ℤ
  pub terrain_size : ℕ
  pub terrain_element_size : ℤ
  pub states : List Frame
