-- ===== src/Tests/Logs.antt =====
-- The log of a small game: a tower destroyed, one hurt and one built; an error given twice.
use codecharacter_simulator.Prelude.{
  ◌≡◌, refl, false, [], ◌∷◌, map, ℤ, pos, negsuc, ok, inl, inr, List,
}
use codecharacter_simulator.Players.{player1, player2, at}
use codecharacter_simulator.Actor.Tower.{Tower}
use codecharacter_simulator.Syncer.Commands.{ErrorType}
use codecharacter_simulator.Logger.Messages.{idle_mode, SoldierMessage}
use codecharacter_simulator.Logger.Errors.{ErrorLog, codes, full_message, log_error}
use codecharacter_simulator.Logger.Towers.{
  TowerLogEntry, TowerDiff, entry_of, new_tower, log_tower_changes, compare_towers, compare_step,
  remove_towers, add_towers,
}
use codecharacter_simulator.Logger.Matches.{Follows}
use codecharacter_simulator.Logger.Loops.{log_tower_changes_lem}
use codecharacter_simulator.Logger.Codes.{IsLogged, log_error-IsLogged}
use codecharacter_simulator.Logger.Defs.{
  Logger, new_logger, log_state, later_turn, soldier_messages, target_position,
}
use codecharacter_simulator.Logger.Frames.{Tracks, log_state-Tracks}
use codecharacter_simulator.Tests.Doubles.{whole}
use codecharacter_simulator.Tests.Soldiers.{tower_of, at_cell}
use codecharacter_simulator.Tests.Towers.{tower_rules}
use codecharacter_simulator.Tests.Games.{built}

abbrev entry : ℤ → ℤ → TowerLogEntry
entry id hp = record { id = id; hp = hp; level = pos 1 }

-- The tower 7 is gone, 8 has been hurt and 9 is new.
abbrev log : List TowerLogEntry
log = entry (pos 7) (pos 10) ∷ entry (pos 8) (pos 20) ∷ []

abbrev towers : List (Tower whole)
towers =
    tower_of player1 (pos 8) (at_cell (pos 0) (pos 0)) false
    ∷ tower_of player1 (pos 9) (at_cell (pos 1) (pos 1)) false
    ∷ []

towers-Follows : Follows log towers
towers-Follows = inr (refl, refl, inl (refl, tt))

log_tower_changes_lem_example :
    (d : TowerDiff) × (log_tower_changes player1 log towers [] ≡ ok d)
    × (d.log ≡ map entry_of towers)
log_tower_changes_lem_example = log_tower_changes_lem player1 log towers [] towers-Follows

abbrev known : ErrorLog
known = record {
  error_map = (full_message ErrorType.invalid_territory (codes "x"), 0) ∷ [];
  current_error_code = 1;
  errors = record { first = 0 ∷ []; second = [] };
}

log_error-IsLogged_example :
    IsLogged known
      (log_error known player2 ErrorType.invalid_territory (codes "x"))
      player2
      (full_message ErrorType.invalid_territory (codes "x"))
log_error-IsLogged_example =
    log_error-IsLogged known player2 ErrorType.invalid_territory (codes "x")
      (record { numbered = (refl, tt); counter = refl })

-- The first tower has been logged before.
abbrev logger : Logger
logger = record (new_logger (pos 10) (pos 20)) {
  turn_count = 1;
  tower_logs = record { first = entry (pos 7) (pos 10) ∷ []; second = [] };
  error_log = known;
}

abbrev soldier_at : ℤ → ℤ → SoldierMessage
soldier_at x y = record {
  hp = pos 100;
  x = x;
  y = y;
  state = idle_mode;
  attack_target_x = negsuc 0;
  attack_target_y = negsuc 0;
}

abbrev logged : Logger
logged = record (new_logger (pos 10) (pos 20)) {
  turn_count = 2;
  tower_logs = record { first = entry (pos 7) (pos 10) ∷ entry (pos 8) (pos 10) ∷ []; second = [] };
  error_log = record known { errors = record { first = []; second = [] } };
  logs = record (logger.logs) {
    states =
        record {
          soldiers = soldier_at (pos 0) (pos 0) ∷ soldier_at (pos 1) (pos 1) ∷ [];
          towers = new_tower (tower_of player1 (pos 8) (at_cell (pos 1) (pos 1)) false) ∷ [];
          money = pos 400 ∷ pos 300 ∷ [];
          instruction_counts = pos 0 ∷ pos 0 ∷ [];
          player_errors = (0 ∷ []) ∷ [] ∷ [];
        }
        ∷ [];
  };
}

logs : log_state tower_rules built logger ≡ ok logged
unfolding log_state later_turn soldier_messages target_position log_tower_changes compare_towers
    compare_step remove_towers add_towers
logs = refl

log_state-Tracks_example : Tracks built (at logged.tower_logs)
log_state-Tracks_example =
    log_state-Tracks tower_rules built logger logged
      (inr (λ p.
        elim p as (λ q. Follows (at logger.tower_logs q) (at built.tower_managers q).towers) [
          | player1 ↦ inl (refl, tt)
          | player2 ↦ tt
        ]))
      logs
