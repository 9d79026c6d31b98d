-- ===== src/Tests/Games.antt =====
-- A game of one turn in which a tower is built, one that goes on for two, and one that is forfeited.
use codecharacter_simulator.Prelude.{
  zero, suc, ◌≡◌, refl, true, false, [], ◌∷◌, ℤ, pos, ◌+ℤ◌, ◌-ℤ◌, ◌*ℤ◌, ok, none, get_cell?,
  modify_cell, count_up, arith,
}
use codecharacter_simulator.Players.{PlayerId, player1, player2, at}
use codecharacter_simulator.Physics.Vector.{Vector, floor, vdiv}
use codecharacter_simulator.Actor.Base.{set_hp}
use codecharacter_simulator.Actor.Soldier.{Soldier, idle_state}
use codecharacter_simulator.Map.{own_cell}
use codecharacter_simulator.Money.{decrease}
use codecharacter_simulator.Soldier.Machine
use codecharacter_simulator.Soldier.Machine.{
  late_update, transitions, commit_position, commit_damage, count_invulnerability,
}
use codecharacter_simulator.Soldier.States.{state_update, idle_update}
use codecharacter_simulator.Towers.Defs.{TowerManager, TowerScene, calculate_bounds, bounds_of}
use codecharacter_simulator.Towers.Territory.{claim, claim_cell}
use codecharacter_simulator.Towers.Creation.{IsFree, new_manager-IsTerritory}
use codecharacter_simulator.Towers.Invariant.{IsTerritory}
use codecharacter_simulator.Towers.Handlers
use codecharacter_simulator.Towers.Handlers.{
  new_manager, claim_all, build_one, cell_middle, drain, dead_indices, handle_tower_build_updates,
  handle_tower_upgrade_updates, handle_tower_suicide_updates, handle_tower_death_updates,
}
use codecharacter_simulator.Game.Defs.{State}
use codecharacter_simulator.Game.Updates
use codecharacter_simulator.Game.Updates.{update_manager, all_soldiers, each_soldier, on_scene}
use codecharacter_simulator.Game.Territory.Defs.{IsSound, tower_scene}
use codecharacter_simulator.Game.Territory.Updates.{update-IsSound}
use codecharacter_simulator.Tests.Doubles.{whole, whole-IsMonotone, quotient}
use codecharacter_simulator.Tests.Money.{purse, purse-IsValid}
use codecharacter_simulator.Tests.Soldiers.{rules, soldier_of, at_cell}
use codecharacter_simulator.Tests.Towers.{
  tower_rules, map_of, asked, grown, started-IsTerritory, ranges-IsRising,
}

-- Player 2 has no tower.
abbrev idle_manager : TowerManager whole
idle_manager = record {
  towers = [];
  player_id = player2;
  towers_to_build_offsets = [];
  towers_to_upgrade = [];
  towers_to_suicide = [];
  towers_to_delete_next = [];
  towers_to_delete_last = [];
  territory_refs = (pos 0 ∷ pos 0 ∷ []) ∷ (pos 0 ∷ pos 0 ∷ []) ∷ [];
}

-- A soldier without a destination.
abbrev resting : PlayerId → ℤ → Vector whole → Soldier whole
resting p id v = record (soldier_of p id v (pos 0)) {
  is_destination_set = false;
  state = idle_state;
  attack_target = none;
}

abbrev pub arena : State whole
arena = record {
  soldiers = record {
    first = resting player1 (pos 0) (at_cell (pos 0) (pos 0)) ∷ [];
    second = resting player2 (pos 1) (at_cell (pos 1) (pos 1)) ∷ [];
  };
  map = map_of true false;
  money_manager = purse;
  tower_managers = record { first = asked.manager; second = idle_manager };
  next_id = pos 8;
}

abbrev pub built : State whole
built = record {
  soldiers = arena.soldiers;
  map = grown.map;
  money_manager = grown.money;
  tower_managers = record { first = grown.manager; second = idle_manager };
  next_id = pos 9;
}

map-IsFree : IsFree player2 (map_of true false)
unfolding get_cell?
map-IsFree zero zero = (refl, refl)
map-IsFree zero (suc zero) = (refl, refl)
map-IsFree zero (suc (suc j)) = ground arith
map-IsFree (suc zero) zero = (refl, refl)
map-IsFree (suc zero) (suc zero) = (refl, refl)
map-IsFree (suc zero) (suc (suc j)) = ground arith
map-IsFree (suc (suc i)) j = ground arith

abbrev idle_scene : TowerScene whole
idle_scene = record {
  manager = idle_manager;
  money = purse;
  map = map_of true false;
  next_id = pos 8;
}

starts :
    new_manager tower_rules [] player2 (map_of true false) ≡ ok (idle_scene.manager, idle_scene.map)
unfolding new_manager claim_all
starts = refl

pub arena-IsSound : IsSound tower_rules arena
arena-IsSound = record {
  owners = λ p. elim p as (λ q. (at arena.tower_managers q).player_id ≡ q) [
    | player1 ↦ refl
    | player2 ↦ refl
  ];
  territory = territory;
  balances = purse-IsValid;
}
  where
    territory : (p : PlayerId) → IsTerritory tower_rules (tower_scene arena p)
    territory player1 = started-IsTerritory
    territory player2 =
        new_manager-IsTerritory tower_rules [] player2 (map_of true false) idle_scene map-IsFree
          starts

updates : Updates.update tower_rules rules arena ≡ ok built
unfolding Updates.update update_manager all_soldiers each_soldier on_scene Handlers.update
    handle_tower_build_updates handle_tower_upgrade_updates handle_tower_suicide_updates
    handle_tower_death_updates build_one cell_middle claim claim_cell calculate_bounds bounds_of
    count_up modify_cell own_cell floor vdiv quotient decrease ◌+ℤ◌ ◌-ℤ◌ ◌*ℤ◌ drain dead_indices
    Machine.update late_update transitions commit_position commit_damage count_invulnerability
    state_update idle_update set_hp
updates = refl

update-IsSound_example : IsSound tower_rules built
update-IsSound_example =
    update-IsSound tower_rules whole-IsMonotone ranges-IsRising rules arena built arena-IsSound
      updates
