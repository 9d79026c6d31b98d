-- ===== src/Tests/Turns.antt =====
-- A whole turn of commands: player 1 upgrades a tower and asks for another; player 2 is skipped.
use codecharacter_simulator.Prelude.{
  ◌≡◌, refl, Bool, true, false, [], ◌∷◌, pos, negsuc, ◌-ℤ◌, ok, get_cell?,
}
use codecharacter_simulator.Players.{player1}
use codecharacter_simulator.Physics.Vector.{floor, vdiv}
use codecharacter_simulator.Actor.Soldier.{SoldierStateName}
use codecharacter_simulator.Map.{get_element_by_offset, offset_cell}
use codecharacter_simulator.Game.Defs
use codecharacter_simulator.Towers.Handlers
use codecharacter_simulator.Syncer.PlayerState.{PlayerMapElement, PlayerState}
use codecharacter_simulator.Syncer.Commands.{Turn, upgrade_tower, build_tower, is_occupied}
use codecharacter_simulator.Syncer.Keeps.{IsKept}
use codecharacter_simulator.Syncer.Turns.{
  each_round, tower_command, soldier_command, build_row, build_rows, tower_commands, other_commands,
  execute_player_commands,
}
use codecharacter_simulator.Syncer.Turnover.{execute_player_commands-IsKept}
use codecharacter_simulator.Tests.Doubles.{whole, quotient}
use codecharacter_simulator.Tests.Money.{purse-IsValid}
use codecharacter_simulator.Tests.Soldiers.{at_cell}
use codecharacter_simulator.Tests.Commands.{game, syncer_rules}

abbrev wish : Bool → PlayerMapElement
wish b = record {
  territory = true;
  enemy_territory = false;
  valid_territory = true;
  build_tower = b;
}

abbrev pub view : PlayerState whole
view = record {
  map = (wish false ∷ wish false ∷ []) ∷ (wish false ∷ wish true ∷ []) ∷ [];
  soldiers =
      record {
        id = pos 0;
        position = at_cell (pos 0) (pos 0);
        hp = pos 100;
        state = SoldierStateName.idle;
        is_immune = false;
        tower_target = negsuc 0;
        soldier_target = negsuc 0;
        destination = at_cell (negsuc 0) (negsuc 0);
      }
      ∷ [];
  enemy_soldiers = [];
  towers =
      record {
        id = pos 7;
        position = at_cell (pos 0) (pos 0);
        hp = pos 10;
        level = pos 1;
        upgrade_tower = true;
        suicide = false;
      }
      ∷ [];
  enemy_towers = [];
  num_towers = 1;
  num_enemy_towers = 1;
  money = pos 500;
}

abbrev after_turn : Turn whole
after_turn = record {
  state =
      Defs.request_build (Defs.request_upgrade game player1 (pos 7)) player1
        (at_cell (pos 1) (pos 1));
  errors = [];
  player_money = record { first = pos 200; second = pos 300 };
  num_towers = 2;
  razed_towers = [];
}

runs :
    execute_player_commands syncer_rules
      (record { first = view; second = view })
      (record { first = false; second = true })
      game
    ≡ ok after_turn
unfolding execute_player_commands tower_commands other_commands each_round tower_command
    soldier_command build_row build_rows upgrade_tower build_tower get_element_by_offset offset_cell
    get_cell? is_occupied floor vdiv quotient ◌-ℤ◌ Defs.request_upgrade Defs.request_build
    Handlers.upgrade_tower Handlers.build_tower
runs = refl

execute_player_commands-IsKept_example : IsKept syncer_rules game after_turn
execute_player_commands-IsKept_example =
    execute_player_commands-IsKept syncer_rules (record { first = view; second = view })
      (record { first = false; second = true }) game after_turn purse-IsValid runs
