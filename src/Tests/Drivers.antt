-- ===== src/Tests/Drivers.antt =====
-- Whole games: one turn in which a tower is built, and a game that is forfeited.
use codecharacter_simulator.Prelude.{
  ℕ, ◌≡◌, refl, false, ◌++◌, pos, ◌+ℤ◌, ◌-ℤ◌, ◌*ℤ◌, ok, get_cell?, modify_cell, count_up, ◌>>=◌,
  ltb_ℤ,
}
use codecharacter_simulator.Players.{player1, player2, PerPlayer, at}
use codecharacter_simulator.Physics.Vector.{floor, vdiv}
use codecharacter_simulator.Actor.Base.{set_hp}
use codecharacter_simulator.Map.{get_element_by_offset, offset_cell, own_cell}
use codecharacter_simulator.Money.{decrease}
use codecharacter_simulator.Soldier.Machine
use codecharacter_simulator.Soldier.Machine.{
  late_update, transitions, commit_position, commit_damage, count_invulnerability,
}
use codecharacter_simulator.Soldier.States.{state_update, idle_update}
use codecharacter_simulator.Towers.Defs.{calculate_bounds, bounds_of}
use codecharacter_simulator.Towers.Territory.{claim, claim_cell}
use codecharacter_simulator.Towers.Handlers
use codecharacter_simulator.Towers.Handlers.{
  build_one, cell_middle, drain, dead_indices, handle_tower_build_updates,
  handle_tower_upgrade_updates, handle_tower_suicide_updates, handle_tower_death_updates,
}
use codecharacter_simulator.Game.Updates
use codecharacter_simulator.Game.Updates.{update_manager, all_soldiers, each_soldier, on_scene}
use codecharacter_simulator.Game.Territory.Defs.{IsSound}
use codecharacter_simulator.Syncer.PlayerState.{PlayerState}
use codecharacter_simulator.Syncer.Commands.{flip_position}
use codecharacter_simulator.Syncer.Turns.{
  each_round, tower_command, soldier_command, build_row, build_rows, tower_commands, other_commands,
  execute_player_commands,
}
use codecharacter_simulator.View.Flip.{flip_map, flip_row, flip_pair, swap_cells}
use codecharacter_simulator.View.Actors.{
  assign_tower, assign_soldier, assign_tower_attributes, assign_soldier_attributes,
}
use codecharacter_simulator.View.Defs.{
  collect, copy_to, copy_rows, new_cell, new_player_map, mark_tower, mark_towers,
  update_player_state, update_player_states,
}
use codecharacter_simulator.Driver.Defs.{
  DriverRules, Observed, Environment, PlayerResult, exceeded_instruction_limit, check_counter,
  player_turn, players, turn, final_results, run, start, started,
}
use codecharacter_simulator.Driver.Sound.{start-IsSound}
use codecharacter_simulator.Driver.Results.{IsOutcome, start-IsOutcome}
use codecharacter_simulator.Driver.Calm.{IsCalm, play, start_calm}
use codecharacter_simulator.Driver.Forfeit.{run_forfeit}
use codecharacter_simulator.Tests.Doubles.{whole, whole-IsMonotone, quotient}
use codecharacter_simulator.Tests.Soldiers.{rules}
use codecharacter_simulator.Tests.Towers.{tower_rules, ranges-IsRising}
use codecharacter_simulator.Tests.Commands.{syncer_rules}
use codecharacter_simulator.Tests.Views.{blank}
use codecharacter_simulator.Tests.Games.{arena, built, arena-IsSound}

-- Arrays with room for two towers.
abbrev roomy : PlayerState whole
roomy = record blank {
  towers = blank.towers ++ blank.towers;
  enemy_towers = blank.towers ++ blank.towers;
}

abbrev rooms : PerPlayer (PlayerState whole)
rooms = record { first = roomy; second = roomy }

abbrev driver_rules : DriverRules whole
driver_rules = record {
  player_instruction_limit_turn = pos 10;
  player_instruction_limit_game = pos 20;
  syncer_rules = syncer_rules;
  tower_rules = tower_rules;
  soldier_rules = rules;
}

-- Nobody writes anything; player 2 takes too many instructions for a turn.
abbrev calm_turn : PerPlayer (PlayerState whole) → Observed whole
calm_turn views = record {
  written = views;
  instruction_counter = record { first = pos 5; second = pos 15 };
  cancel = record { first = false; second = false };
  is_game_timed_out = false;
}

abbrev calm : Environment whole
calm i views = calm_turn views

-- Player 1 takes too many instructions for the game.
abbrev greedy : Environment whole
greedy i views = record (calm_turn views) {
  instruction_counter = record { first = pos 25; second = pos 15 };
}

plays : start driver_rules calm 1 arena rooms ≡ ok (built, final_results built)
unfolding start run players player_turn check_counter turn execute_player_commands tower_commands
    other_commands tower_command soldier_command build_row build_rows Updates.update update_manager
    all_soldiers each_soldier on_scene Handlers.update handle_tower_build_updates
    handle_tower_upgrade_updates handle_tower_suicide_updates handle_tower_death_updates build_one
    cell_middle claim claim_cell calculate_bounds bounds_of count_up modify_cell own_cell floor vdiv
    quotient decrease ◌+ℤ◌ ◌-ℤ◌ ◌*ℤ◌ drain dead_indices Machine.update late_update transitions
    commit_position commit_damage count_invulnerability state_update idle_update set_hp
    update_player_states new_player_map collect new_cell get_element_by_offset offset_cell get_cell?
    update_player_state assign_tower_attributes assign_soldier_attributes each_round assign_tower
    assign_soldier mark_towers mark_tower copy_rows copy_to flip_position flip_map flip_row
    flip_pair swap_cells
plays = refl

start-IsSound_example : IsSound tower_rules built
start-IsSound_example =
    start-IsSound driver_rules whole-IsMonotone ranges-IsRising calm 1 arena built rooms
      (final_results built) arena-IsSound plays

start-IsOutcome_example : IsOutcome built (final_results built)
start-IsOutcome_example =
    start-IsOutcome driver_rules calm 1 arena built rooms (final_results built) plays

calm-IsCalm : (k : ℕ) (shown : PerPlayer (PlayerState whole)) → IsCalm driver_rules (calm k shown)
calm-IsCalm k shown = record {
  not_cancelled = λ p. elim p as (λ q. at (calm_turn shown).cancel q ≡ false) [
    | player1 ↦ refl
    | player2 ↦ refl
  ];
  in_time = refl;
  within_limit = λ p.
      elim p as (λ q. ltb_ℤ (pos 20) (at (calm_turn shown).instruction_counter q) ≡ false) [
        | player1 ↦ refl
        | player2 ↦ refl
      ];
}

start_calm_example : start driver_rules calm 2 arena rooms ≡ (
    update_player_states arena rooms >>= λ shown.
    play driver_rules calm 2 0 arena shown >>= λ s'. ok (s', final_results s'))
start_calm_example = start_calm driver_rules calm 2 arena rooms calm-IsCalm

run_forfeit_example :
    (results : PerPlayer PlayerResult) × (run driver_rules greedy 3 0 arena rooms started
      ≡ ok (arena, results))
    × ((at results player1).status ≡ exceeded_instruction_limit)
run_forfeit_example =
    run_forfeit driver_rules greedy 2 0 arena rooms started player1
      (λ q. elim q as (λ p. at (greedy 0 rooms).cancel p ≡ false) [
        | player1 ↦ refl
        | player2 ↦ refl
      ])
      refl
