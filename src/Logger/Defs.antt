-- ===== src/Logger/Defs.antt =====
-- logger/logger.h and logger.cpp: the logger, `LogState` and `LogInstructionCount`. `WriteGame` only
-- writes the message out.
use codecharacter_simulator.Prelude.{
  ℕ, suc, ◌==◌, List, [], ◌∷◌, ◌++◌, map, ℤ, pos, negsuc, Option, none, some, get_elem?, Result, ok,
  logic_error, undefined, or_err, ◌>>=◌, if◌then◌else◌,
}
use codecharacter_simulator.Players.{PlayerId, player1, player2, PerPlayer, put}
use codecharacter_simulator.Physics.Double.{Double}
use codecharacter_simulator.Actor.Soldier.{Soldier, SoldierStateName, get_name, ActorPtr}
use codecharacter_simulator.Actor.Any.{base}
use codecharacter_simulator.Map.{get_size}
use codecharacter_simulator.Towers.Defs.{TowerRules}
use codecharacter_simulator.Game.Defs.{State, get_money}
use codecharacter_simulator.Game.Updates.{deref}
use codecharacter_simulator.Logger.Messages.{
  SoldierMode, idle_mode, move_mode, attack_mode, dead_mode, SoldierMessage, TowerMessage, GameLog,
}
use codecharacter_simulator.Logger.Errors.{ErrorLog}
use codecharacter_simulator.Logger.Towers.{TowerLogEntry, entry_of, new_tower, log_tower_changes}

-- The class `Logger`; its errors are those of `ErrorLog`. The vector of tower logs is empty until the
-- first turn fills it; here each log is.
pub record Logger : Type 0 where
  pub turn_count : ℕ
  pub tower_logs : PerPlayer (List TowerLogEntry)
  pub logs : GameLog
  pub instruction_counts : PerPlayer ℤ
  pub error_log : ErrorLog
  pub player_instruction_limit_turn : ℤ
  pub player_instruction_limit_game : ℤ

-- The constructor.
abbrev pub new_logger : ℤ → ℤ → Logger
new_logger limit_turn limit_game = record {
  turn_count = 0;
  tower_logs = record { first = []; second = [] };
  logs = record {
    tower_ranges = [];
    tower_max_hps = [];
    soldier_max_hp = pos 0;
    error_map = [];
    inst_limit_turn = pos 0;
    inst_limit_game = pos 0;
    terrain_size = 0;
    terrain_element_size = pos 0;
    states = [];
  };
  instruction_counts = record { first = pos 0; second = pos 0 };
  error_log = record {
    error_map = [];
    current_error_code = 0;
    errors = record { first = []; second = [] };
  };
  player_instruction_limit_turn = limit_turn;
  player_instruction_limit_game = limit_game;
}

unfoldable pub log_instruction_count : Logger → PlayerId → ℤ → Logger
log_instruction_count l p count = record l { instruction_counts = put l.instruction_counts p count }

abbrev pub mode_of : SoldierStateName → SoldierMode
mode_of SoldierStateName.attack = attack_mode
mode_of SoldierStateName.pursuit = move_mode
mode_of SoldierStateName.move = move_mode
mode_of SoldierStateName.idle = idle_mode
mode_of SoldierStateName.dead = dead_mode

-- What the part for the first turn or for later turns leaves: the tower logs, the messages about towers
-- and the game's log.
pub record TowerPart : Type 0 where
  pub tower_logs : PerPlayer (List TowerLogEntry)
  pub messages : List TowerMessage
  pub logs : GameLog

module _ {D : Double} where
  -- The position of a soldier's target, or -1 twice.
  unfoldable pub target_position : State D → Option ActorPtr → Result (ℤ × ℤ)
  target_position s none = ok (negsuc 0, negsuc 0)
  target_position s (some ptr) = do
    a ← or_err (deref s (some ptr)) undefined
    ok (D.to_int (base a).position.x, D.to_int (base a).position.y)

  unfoldable pub soldier_messages : State D → List (Soldier D) → Result (List SoldierMessage)
  soldier_messages s [] = ok []
  soldier_messages s (x ∷ xs) = do
    (target_x, target_y) ← target_position s x.attack_target
    rest ← soldier_messages s xs
    ok (
        record {
          hp = x.hp;
          x = D.to_int x.position.x;
          y = D.to_int x.position.y;
          state = mode_of (get_name x.state);
          attack_target_x = target_x;
          attack_target_y = target_y;
        }
        ∷ rest)

  -- A soldier's maximum is read from the first soldier of player 1.
  unfoldable pub first_turn : TowerRules → State D → Logger → Result TowerPart
  first_turn r s l = do
    x ← or_err (get_elem? s.soldiers.first 0) logic_error
    ok (record {
      tower_logs = record {
        first = map entry_of s.tower_managers.first.towers;
        second = map entry_of s.tower_managers.second.towers;
      };
      messages =
          map new_tower s.tower_managers.first.towers
          ++ map new_tower s.tower_managers.second.towers;
      logs = record (l.logs) {
        terrain_size = get_size s.map;
        terrain_element_size = s.map.element_size;
        tower_ranges = l.logs.tower_ranges ++ r.tower_ranges;
        tower_max_hps = l.logs.tower_max_hps ++ r.max_hp_levels;
        soldier_max_hp = x.max_hp;
        inst_limit_turn = l.player_instruction_limit_turn;
        inst_limit_game = l.player_instruction_limit_game;
      };
    })

  unfoldable pub later_turn : State D → Logger → Result TowerPart
  later_turn s l = do
    a ← log_tower_changes player1 l.tower_logs.first s.tower_managers.first.towers []
    b ← log_tower_changes player2 l.tower_logs.second s.tower_managers.second.towers a.messages
    ok (record {
      tower_logs = record { first = a.log; second = b.log };
      messages = b.messages;
      logs = l.logs;
    })

  unfoldable pub log_state : TowerRules → State D → Logger → Result Logger
  log_state r s l = do
    part ← if l.turn_count == 0 then first_turn r s l else later_turn s l
    soldiers₁ ← soldier_messages s s.soldiers.first
    soldiers₂ ← soldier_messages s s.soldiers.second
    ok (record l {
      turn_count = suc l.turn_count;
      tower_logs = part.tower_logs;
      instruction_counts = record { first = pos 0; second = pos 0 };
      error_log = record (l.error_log) { errors = record { first = []; second = [] } };
      logs = record (part.logs) {
        states =
            part.logs.states
            ++ (record {
              soldiers = soldiers₁ ++ soldiers₂;
              towers = part.messages;
              money = (get_money s).first ∷ (get_money s).second ∷ [];
              instruction_counts = l.instruction_counts.first ∷ l.instruction_counts.second ∷ [];
              player_errors = l.error_log.errors.first ∷ l.error_log.errors.second ∷ [];
            }
                ∷ []);
      };
    })
