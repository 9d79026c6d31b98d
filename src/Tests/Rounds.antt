-- ===== src/Tests/Rounds.antt =====
-- One round of each handler of a tower manager, on the small map.
use codecharacter_simulator.Prelude.{
  ◌≡◌, refl, true, false, [], ◌∷◌, pos, ◌+ℤ◌, ◌-ℤ◌, ◌*ℤ◌, ok, count_up, modify_cell, get_cell?,
}
use codecharacter_simulator.Players.{player1}
use codecharacter_simulator.Physics.Vector.{floor, vdiv}
use codecharacter_simulator.Actor.Base.{set_hp}
use codecharacter_simulator.Actor.Tower.{Tower, upgrade, set_tower_hp}
use codecharacter_simulator.Map.{own_cell}
use codecharacter_simulator.Money.{decrease, increase, reward_suicide}
use codecharacter_simulator.Towers.Defs.{TowerScene, bounds_of, calculate_bounds}
use codecharacter_simulator.Towers.Territory.{
  claim, claim_cell, claim_new, claim_new_cell, release, release_cell,
}
use codecharacter_simulator.Towers.Invariant.{IsTerritory}
use codecharacter_simulator.Towers.Handlers.{
  build_one, upgrade_one, suicide_one, delete_one, cell_middle, last_index,
}
use codecharacter_simulator.Towers.Keeps.{
  build_one-IsTerritory, upgrade_one-IsTerritory, delete_one-IsTerritory,
}
use codecharacter_simulator.Towers.Razes.{IsRazed, suicide_one_lem}
use codecharacter_simulator.Tests.Doubles.{whole, whole-IsMonotone, quotient}
use codecharacter_simulator.Tests.Money.{purse_of}
use codecharacter_simulator.Tests.Soldiers.{tower_of, at_cell}
use codecharacter_simulator.Tests.Towers.{
  tower_rules, element, map_of, manager_of, started, started-IsTerritory, ranges-IsRising,
}

abbrev one_tower : Tower whole
one_tower = tower_of player1 (pos 7) (at_cell (pos 0) (pos 0)) false

abbrev with_second : TowerScene whole
with_second = record {
  manager =
      manager_of (one_tower ∷ tower_of player1 (pos 8) (at_cell (pos 1) (pos 1)) false ∷ []) []
        (pos 1) (pos 1);
  money = purse_of (pos 400) (pos 300);
  map = map_of true true;
  next_id = pos 9;
}

builds_one : build_one tower_rules (at_cell (pos 1) (pos 1)) started ≡ ok with_second
unfolding build_one cell_middle claim claim_cell calculate_bounds bounds_of count_up modify_cell
    own_cell floor vdiv quotient decrease ◌+ℤ◌ ◌-ℤ◌ ◌*ℤ◌
builds_one = refl

build_one-IsTerritory_example : IsTerritory tower_rules with_second
build_one-IsTerritory_example =
    build_one-IsTerritory tower_rules (at_cell (pos 1) (pos 1)) started with_second
      started-IsTerritory builds_one

abbrev raised : TowerScene whole
raised = record {
  manager =
      record (manager_of
        (record one_tower {
          tower_level = 2;
          actor = record (one_tower.actor) { hp = pos 20; max_hp = pos 20 };
        }
          ∷ [])
        [] (pos 1) (pos 1)) { territory_refs = (pos 1 ∷ pos 1 ∷ []) ∷ (pos 1 ∷ pos 1 ∷ []) ∷ [] };
  money = purse_of (pos 300) (pos 300);
  map = record {
    map_elements = (element true ∷ element true ∷ []) ∷ (element true ∷ element true ∷ []) ∷ [];
    element_size = pos 1;
  };
  next_id = pos 8;
}

upgrades_one : upgrade_one tower_rules (pos 7) started ≡ ok raised
unfolding upgrade_one last_index upgrade claim_new claim_new_cell claim_cell calculate_bounds
    bounds_of count_up modify_cell own_cell floor vdiv quotient decrease ◌+ℤ◌ ◌-ℤ◌ ◌*ℤ◌
upgrades_one = refl

upgrade_one-IsTerritory_example : IsTerritory tower_rules raised
upgrade_one-IsTerritory_example =
    upgrade_one-IsTerritory tower_rules whole-IsMonotone ranges-IsRising (pos 7) started raised
      started-IsTerritory upgrades_one

abbrev razed : TowerScene whole
razed = record {
  manager =
      manager_of (record one_tower { actor = record (one_tower.actor) { hp = pos 0 } } ∷ []) []
        (pos 1) (pos 0);
  money = purse_of (pos 525) (pos 300);
  map = map_of true false;
  next_id = pos 8;
}

razes_one : suicide_one tower_rules (pos 7) started ≡ ok razed
unfolding suicide_one last_index set_tower_hp set_hp reward_suicide increase ◌+ℤ◌ ◌-ℤ◌
razes_one = refl

suicide_one_lem_example : IsRazed (pos 7) started razed × IsTerritory tower_rules razed
suicide_one_lem_example =
    suicide_one_lem tower_rules (pos 7) started razed started-IsTerritory razes_one

abbrev emptied : TowerScene whole
emptied = record {
  manager = record (manager_of [] [] (pos 0) (pos 0)) { towers_to_delete_last = one_tower ∷ [] };
  money = purse_of (pos 500) (pos 300);
  map = map_of false false;
  next_id = pos 8;
}

deletes_one : delete_one tower_rules 0 started ≡ ok emptied
unfolding delete_one release release_cell calculate_bounds bounds_of count_up modify_cell get_cell?
    own_cell floor vdiv quotient ◌+ℤ◌ ◌-ℤ◌
deletes_one = refl

delete_one-IsTerritory_example : IsTerritory tower_rules emptied
delete_one-IsTerritory_example =
    delete_one-IsTerritory tower_rules 0 started emptied started-IsTerritory deletes_one
