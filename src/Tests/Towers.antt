-- ===== src/Tests/Towers.antt =====
-- A map of two by two cells with a tower of player 1, who asks for another.
use codecharacter_simulator.Prelude.{
  zero, suc, ◌≡◌, refl, Bool, true, false, List, [], ◌∷◌, ℤ, pos, ◌+ℤ◌, ◌-ℤ◌, ◌*ℤ◌, ok, err, arith,
  int_laws, count_up, modify_cell, out_of_range, get_cell?,
}
use codecharacter_simulator.Players.{player1}
use codecharacter_simulator.Physics.Vector.{Vector, floor, vdiv}
use codecharacter_simulator.Actor.Tower.{Tower}
use codecharacter_simulator.Map.{GameMap, MapElement, TerrainType, own_cell, offset_cell}
use codecharacter_simulator.Map.Offsets.{offset_cell_ints}
use codecharacter_simulator.Money.{decrease}
use codecharacter_simulator.Towers.Defs.{
  TowerRules, TowerManager, TowerScene, bounds_of, calculate_bounds,
}
use codecharacter_simulator.Towers.Territory.{claim, claim_cell}
use codecharacter_simulator.Towers.Counts.{IsRising}
use codecharacter_simulator.Towers.Invariant.{IsTerritory}
use codecharacter_simulator.Towers.Creation.{IsFree, new_manager-IsTerritory, new_manager_lem}
use codecharacter_simulator.Towers.Handlers.{
  new_manager, claim_all, update, handle_tower_build_updates, handle_tower_upgrade_updates,
  handle_tower_suicide_updates, handle_tower_death_updates, build_one, cell_middle, drain,
  dead_indices,
}
use codecharacter_simulator.Towers.Updates.{update-IsTerritory}
use codecharacter_simulator.Tests.Doubles.{whole, whole-IsMonotone, whole-IsExact, quotient}
use codecharacter_simulator.Tests.Money.{purse, purse_of}
use codecharacter_simulator.Tests.Soldiers.{tower_of, at_cell}

abbrev pub tower_rules : TowerRules
tower_rules = record {
  build_costs = pos 100 ∷ pos 200 ∷ [];
  tower_ranges = pos 0 ∷ pos 1 ∷ [];
  max_hp_levels = pos 10 ∷ pos 20 ∷ [];
}

abbrev pub element : Bool → MapElement whole
element own = record {
  position = at_cell (pos 0) (pos 0);
  terrain_type = TerrainType.land;
  ownership = record { first = own; second = false };
}

abbrev pub map_of : Bool → Bool → GameMap whole
map_of a b = record {
  map_elements = (element a ∷ element false ∷ []) ∷ (element false ∷ element b ∷ []) ∷ [];
  element_size = pos 1;
}

abbrev pub towers : List (Tower whole)
towers = tower_of player1 (pos 7) (at_cell (pos 0) (pos 0)) false ∷ []

abbrev pub manager_of : List (Tower whole) → List (Vector whole) → ℤ → ℤ → TowerManager whole
manager_of ts builds a b = record {
  towers = ts;
  player_id = player1;
  towers_to_build_offsets = builds;
  towers_to_upgrade = [];
  towers_to_suicide = [];
  towers_to_delete_next = [];
  towers_to_delete_last = [];
  territory_refs = (a ∷ pos 0 ∷ []) ∷ (pos 0 ∷ b ∷ []) ∷ [];
}

abbrev pub started : TowerScene whole
started = record {
  manager = manager_of towers [] (pos 1) (pos 0);
  money = purse;
  map = map_of true false;
  next_id = pos 8;
}

starts :
    new_manager tower_rules towers player1 (map_of false false) ≡ ok (started.manager, started.map)
unfolding new_manager claim_all claim claim_cell calculate_bounds bounds_of count_up modify_cell
    own_cell floor vdiv quotient ◌+ℤ◌ ◌-ℤ◌
starts = refl

map-IsFree : IsFree player1 (map_of false false)
unfolding get_cell?
map-IsFree zero zero = (refl, refl)
map-IsFree zero (suc zero) = (refl, refl)
map-IsFree zero (suc (suc j)) = ground arith
map-IsFree (suc zero) zero = (refl, refl)
map-IsFree (suc zero) (suc zero) = (refl, refl)
map-IsFree (suc zero) (suc (suc j)) = ground arith
map-IsFree (suc (suc i)) j = ground arith

new_manager_lem_example :
    (n : TowerManager whole) × (g : GameMap whole) × (new_manager tower_rules towers player1
        (map_of false false)
      ≡ ok (n, g))
    × (n.towers ≡ towers)
    × IsTerritory tower_rules (record { manager = n; money = purse; map = g; next_id = pos 8 })
new_manager_lem_example =
    new_manager_lem tower_rules towers player1 (map_of false false) purse (pos 8) map-IsFree
      ((pos 0, refl), tt)

-- With a request to build in the other corner.
abbrev pub asked : TowerScene whole
asked = record started {
  manager = manager_of towers (at_cell (pos 1) (pos 1) ∷ []) (pos 1) (pos 0);
}

abbrev pub grown : TowerScene whole
grown = record {
  manager =
      manager_of
        (tower_of player1 (pos 7) (at_cell (pos 0) (pos 0)) false
          ∷ tower_of player1 (pos 8) (at_cell (pos 1) (pos 1)) false
          ∷ [])
        [] (pos 1) (pos 1);
  money = purse_of (pos 400) (pos 300);
  map = map_of true true;
  next_id = pos 9;
}

pub started-IsTerritory : IsTerritory tower_rules started
started-IsTerritory =
    new_manager-IsTerritory tower_rules towers player1 (map_of false false) started map-IsFree
      starts

builds : update tower_rules asked ≡ ok grown
unfolding update handle_tower_build_updates handle_tower_upgrade_updates
    handle_tower_suicide_updates handle_tower_death_updates build_one cell_middle claim claim_cell
    calculate_bounds bounds_of count_up modify_cell own_cell floor vdiv quotient decrease ◌+ℤ◌ ◌-ℤ◌
    ◌*ℤ◌ drain dead_indices
builds = refl

pub ranges-IsRising : IsRising tower_rules.tower_ranges
ranges-IsRising zero a b ha hb = cc
ranges-IsRising (suc zero) a b ha hb = grind int_laws
ranges-IsRising (suc (suc l)) a b ha hb = cc

update-IsTerritory_example : IsTerritory tower_rules grown
update-IsTerritory_example =
    update-IsTerritory tower_rules whole-IsMonotone ranges-IsRising asked grown started-IsTerritory
      builds

offset_cell_ints_example :
    offset_cell (map_of false false) (at_cell (pos 1) (pos 2)) ≡ err out_of_range
offset_cell_ints_example =
    offset_cell_ints whole-IsExact (map_of false false) 1 2 (omega arith) (omega arith)
      (omega arith)
