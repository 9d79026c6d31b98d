-- ===== src/Tests/Commands.antt =====
-- The commands of a player in a small game.
use codecharacter_simulator.Prelude.{
  ◌≡◌, refl, if◌then◌else◌, true, false, [], ◌∷◌, pos, ◌-ℤ◌, ◌*ℤ◌, get_cell?, ok, ◌⊎◌,
}
use codecharacter_simulator.Players.{player1, player2, at}
use codecharacter_simulator.Physics.Vector.{floor, vdiv}
use codecharacter_simulator.Actor.Soldier.{Soldier, move_to, attack_actor, to_tower, to_soldier}
use codecharacter_simulator.Map.{get_element_by_offset, offset_cell}
use codecharacter_simulator.Game.Defs
use codecharacter_simulator.Game.Defs.{State, soldier_index}
use codecharacter_simulator.Towers.Handlers.{get_tower_by_id, last_index}
use codecharacter_simulator.Syncer.Commands
use codecharacter_simulator.Syncer.Commands.{
  SyncerRules, Turn, ErrorType, log_error, on_state, no_soldier,
}
use codecharacter_simulator.Syncer.Accepts.{
  IsRefused, IsBuilt, IsUpgraded, IsSuicide, build_tower_lem, upgrade_tower_lem, suicide_tower_lem,
}
use codecharacter_simulator.Syncer.Attacks.{
  Acts, HasTarget, IsNotOutside, move_soldier_lem, attack_tower_lem,
}
use codecharacter_simulator.Syncer.Strikes.{HasLive, attack_soldier_lem}
use codecharacter_simulator.Tests.Doubles.{whole, quotient}
use codecharacter_simulator.Tests.Money.{purse}
use codecharacter_simulator.Tests.Soldiers.{soldier_of, tower_of, at_cell}
use codecharacter_simulator.Tests.Towers.{map_of, manager_of, towers}

-- The enemy's soldier has just come back to life.
abbrev pub enemy_soldier : Soldier whole
enemy_soldier = record (soldier_of player2 (pos 1) (at_cell (pos 1) (pos 1)) (pos 0)) {
  is_invulnerable = true;
}

abbrev pub game : State whole
game = record {
  soldiers = record {
    first = soldier_of player1 (pos 0) (at_cell (pos 0) (pos 0)) (pos 0) ∷ [];
    second = enemy_soldier ∷ [];
  };
  map = map_of true true;
  money_manager = purse;
  tower_managers = record {
    first = manager_of towers [] (pos 1) (pos 1);
    second =
        manager_of (tower_of player2 (pos 9) (at_cell (pos 0) (pos 1)) false ∷ []) [] (pos 0)
          (pos 0);
  };
  next_id = pos 10;
}

abbrev pub turn : Turn whole
turn = record {
  state = game;
  errors = [];
  player_money = record { first = pos 500; second = pos 300 };
  num_towers = 1;
  razed_towers = [];
}

abbrev pub syncer_rules : SyncerRules
syncer_rules = record { tower_build_costs = pos 100 ∷ pos 200 ∷ []; max_num_towers = pos 3 }

abbrev after_build : Turn whole
after_build = record turn {
  player_money = record { first = pos 400; second = pos 300 };
  num_towers = 2;
  state = Defs.request_build game player1 (at_cell (pos 1) (pos 1));
}

builds : Commands.build_tower syncer_rules turn player1 (at_cell (pos 1) (pos 1)) ≡ ok after_build
unfolding Commands.build_tower get_element_by_offset offset_cell get_cell? Commands.is_occupied
    floor vdiv quotient ◌-ℤ◌
builds = refl

build_tower_lem_example :
    IsRefused player1 turn after_build
    ⊎ IsBuilt syncer_rules player1 (at_cell (pos 1) (pos 1)) turn after_build
build_tower_lem_example =
    build_tower_lem syncer_rules turn after_build player1 (at_cell (pos 1) (pos 1)) builds

abbrev after_upgrade : Turn whole
after_upgrade = record turn {
  player_money = record { first = pos 300; second = pos 300 };
  state = Defs.request_upgrade game player1 (pos 7);
}

upgrades : Commands.upgrade_tower syncer_rules turn player1 (pos 7) 0 ≡ ok after_upgrade
unfolding Commands.upgrade_tower ◌-ℤ◌
upgrades = refl

upgrade_tower_lem_example :
    IsRefused player1 turn after_upgrade
    ⊎ IsUpgraded syncer_rules player1 (pos 7) 0 turn after_upgrade
upgrade_tower_lem_example =
    upgrade_tower_lem syncer_rules turn after_upgrade player1 (pos 7) 0 upgrades

abbrev after_suicide : Turn whole
after_suicide = record turn {
  razed_towers = pos 7 ∷ [];
  state = Defs.request_suicide game player1 (pos 7);
}

razes : Commands.suicide_tower turn player1 (pos 7) 0 ≡ ok after_suicide
unfolding Commands.suicide_tower
razes = refl

suicide_tower_lem_example :
    IsRefused player1 turn after_suicide ⊎ IsSuicide player1 (pos 7) 0 turn after_suicide
suicide_tower_lem_example = suicide_tower_lem turn after_suicide player1 (pos 7) 0 razes

abbrev with_soldier : Soldier whole → Turn whole
with_soldier x = record turn {
  state = record game { soldiers = record { first = x ∷ []; second = enemy_soldier ∷ [] } };
}

abbrev after_move : Turn whole
after_move = with_soldier (
    move_to (soldier_of player1 (pos 0) (at_cell (pos 0) (pos 0)) (pos 0))
      (at_cell (pos 1) (pos 0)))

moves : Commands.move_soldier turn player1 (pos 0) (at_cell (pos 1) (pos 0)) 0 ≡ ok after_move
unfolding Commands.move_soldier Commands.by_live_soldier Defs.move_soldier soldier_index ◌-ℤ◌ ◌*ℤ◌
moves = refl

move_soldier_lem_example :
    IsRefused player1 turn after_move
    ⊎ (Acts player1 (pos 0) 0 turn
        × IsNotOutside game.map (at_cell (pos 1) (pos 0))
        × (on_state turn (Defs.move_soldier game player1 (pos 0) (at_cell (pos 1) (pos 0)))
            ≡ ok after_move))
move_soldier_lem_example =
    move_soldier_lem turn after_move player1 (pos 0) (at_cell (pos 1) (pos 0)) 0 moves

abbrev after_attack : Turn whole
after_attack = with_soldier (
    attack_actor (soldier_of player1 (pos 0) (at_cell (pos 0) (pos 0)) (pos 0))
      (to_tower player2 (pos 9)))

attacks : Commands.attack_tower turn player1 (pos 0) (pos 9) 0 ≡ ok after_attack
unfolding Commands.attack_tower Commands.by_live_soldier Commands.find_target_tower
    Commands.is_razed Defs.attack_actor_by_id Defs.attack_target_of soldier_index ◌-ℤ◌
    get_tower_by_id last_index
attacks = refl

attack_tower_lem_example :
    IsRefused player1 turn after_attack
    ⊎ (Acts player1 (pos 0) 0 turn
        × HasTarget (at game.tower_managers player2).towers (pos 9)
        × (Commands.is_razed [] (pos 9) ≡ false)
        × (on_state turn (Defs.attack_actor_by_id game player1 (pos 0) (pos 9)) ≡ ok after_attack))
attack_tower_lem_example = attack_tower_lem turn after_attack player1 (pos 0) (pos 9) 0 attacks

abbrev after_strike : Turn whole
after_strike =
    record (with_soldier (
      attack_actor (soldier_of player1 (pos 0) (at_cell (pos 0) (pos 0)) (pos 0))
        (to_soldier player2 0))) { errors = (player1, ErrorType.no_attack_immune_soldier) ∷ [] }

strikes : Commands.attack_soldier turn player1 (pos 0) (pos 1) 0 ≡ ok after_strike
unfolding Commands.attack_soldier Commands.by_live_soldier Commands.find_target_soldier
    Defs.attack_actor_by_id Defs.attack_target_of soldier_index ◌-ℤ◌
strikes = refl

attack_soldier_lem_example :
    IsRefused player1 turn after_strike
    ⊎ (Acts player1 (pos 0) 0 turn
        × HasLive (at game.soldiers player2) (pos 1)
        × (on_state
              (if (Commands.find_target_soldier
                  (at game.soldiers player2)
                  (pos 1)
                  no_soldier).enemy_immune
                then log_error turn player1 ErrorType.no_attack_immune_soldier
                else turn)
              (Defs.attack_actor_by_id game player1 (pos 0) (pos 1))
            ≡ ok after_strike))
attack_soldier_lem_example = attack_soldier_lem turn after_strike player1 (pos 0) (pos 1) 0 strikes
