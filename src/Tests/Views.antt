-- ===== src/Tests/Views.antt =====
-- What the players of a small game are shown.
use codecharacter_simulator.Prelude.{
  ℕ, zero, suc, ◌≡◌, refl, Bool, true, false, [], ◌∷◌, pos, negsuc, ◌-ℤ◌, ◌*ℤ◌, ok, get_cell?,
  modify_cell, count_up, arith, inl, ◌<◌,
}
use mathlib.Core.Option
use codecharacter_simulator.Players.{PlayerId, player1, player2, PerPlayer, at}
use codecharacter_simulator.Physics.Vector.{floor, vdiv}
use codecharacter_simulator.Actor.Soldier.{SoldierStateName}
use codecharacter_simulator.Map.{get_element_by_offset, offset_cell}
use codecharacter_simulator.Game.Lookup.{HasTeams}
use codecharacter_simulator.Syncer.PlayerState.{PlayerMapElement, PlayerState}
use codecharacter_simulator.Syncer.Commands.{flip_position}
use codecharacter_simulator.Syncer.Turns.{each_round, execute_player_commands}
use codecharacter_simulator.View.Flip.{
  PlayerMap, swap_territory, flip_map, flip_row, flip_pair, swap_cells, row_length,
}
use codecharacter_simulator.View.Turned.{IsSquare}
use codecharacter_simulator.View.Around.{flip_map_lem, flip_map_center}
use codecharacter_simulator.View.Actors.{
  assign_tower, assign_soldier, assign_tower_attributes, assign_soldier_attributes,
}
use codecharacter_simulator.View.Defs.{
  collect, copy_to, copy_rows, new_cell, new_player_map, mark_tower, mark_towers,
  update_player_state, update_player_states,
}
use codecharacter_simulator.View.Cells.{AllCells}
use codecharacter_simulator.View.Shown.{Shows, update_player_states-Shows}
use codecharacter_simulator.View.Territory.{ShowsCell, update_player_states-ShowsCell}
use codecharacter_simulator.View.Idle.{counted, idle_turn}
use codecharacter_simulator.Tests.Doubles.{whole, whole-IsExact, quotient}
use codecharacter_simulator.Tests.Soldiers.{at_cell}
use codecharacter_simulator.Tests.Commands.{game, syncer_rules}
use codecharacter_simulator.Tests.Turns.{view}

abbrev plot : Bool → Bool → PlayerMapElement
plot a b = record {
  territory = a;
  enemy_territory = b;
  valid_territory = false;
  build_tower = false;
}

abbrev square2 : PlayerMap
square2 = (plot true false ∷ plot true true ∷ []) ∷ (plot false true ∷ plot false false ∷ []) ∷ []

square2-IsSquare : IsSquare 2 square2
square2-IsSquare = record { rows = refl; columns = two }
  where
    two : (i : ℕ) → i < 2 → row_length square2 i ≡ 2
    two zero h = refl
    two (suc zero) h = refl
    two (suc (suc i)) h = let c : ⊥ = omega arith in elim c [ ]

flip_map_lem_example :
    get_cell? (flip_map square2) 0 1 ≡ Option.map swap_territory (get_cell? square2 1 0)
flip_map_lem_example =
    flip_map_lem 2 square2 0 1 square2-IsSquare (omega arith) (omega arith)
      (inl (λ e. omega (arith, e)))

abbrev square1 : PlayerMap
square1 = (plot true false ∷ []) ∷ []

square1-IsSquare : IsSquare 1 square1
square1-IsSquare = record { rows = refl; columns = one }
  where
    one : (i : ℕ) → i < 1 → row_length square1 i ≡ 1
    one zero h = refl
    one (suc i) h = let c : ⊥ = omega arith in elim c [ ]

flip_map_center_example : get_cell? (flip_map square1) 0 0 ≡ get_cell? square1 0 0
flip_map_center_example = flip_map_center 1 square1 square1-IsSquare refl

-- The arrays of a player before they are written.
abbrev pub blank : PlayerState whole
blank = record view { enemy_soldiers = view.soldiers; enemy_towers = view.towers }

abbrev seen : Bool → Bool → Bool → PlayerMapElement
seen a b v = record { territory = a; enemy_territory = b; valid_territory = v; build_tower = false }

abbrev shown : PerPlayer (PlayerState whole)
shown = record {
  first = record {
    map =
        (seen true false false ∷ seen false false false ∷ [])
        ∷ (seen false false false ∷ seen true false true ∷ [])
        ∷ [];
    soldiers =
        record {
          id = pos 0;
          position = at_cell (pos 0) (pos 0);
          hp = pos 100;
          state = SoldierStateName.idle;
          is_immune = false;
          tower_target = negsuc 0;
          soldier_target = negsuc 0;
          destination = at_cell (negsuc 0) (negsuc 0);
        }
        ∷ [];
    enemy_soldiers =
        record {
          id = pos 1;
          position = at_cell (pos 1) (pos 1);
          hp = pos 100;
          state = SoldierStateName.idle;
          is_immune = true;
          tower_target = negsuc 0;
          soldier_target = negsuc 0;
          destination = at_cell (negsuc 0) (negsuc 0);
        }
        ∷ [];
    towers =
        record {
          id = pos 7;
          position = at_cell (pos 0) (pos 0);
          hp = pos 10;
          level = pos 1;
          upgrade_tower = false;
          suicide = false;
        }
        ∷ [];
    enemy_towers =
        record {
          id = pos 9;
          position = at_cell (pos 0) (pos 1);
          hp = pos 10;
          level = pos 1;
          upgrade_tower = false;
          suicide = false;
        }
        ∷ [];
    num_towers = 1;
    num_enemy_towers = 1;
    money = pos 500;
  };
  second = record {
    map =
        (seen false true false ∷ seen false false false ∷ [])
        ∷ (seen false false false ∷ seen false true false ∷ [])
        ∷ [];
    soldiers =
        record {
          id = pos 1;
          position = at_cell (pos 0) (pos 0);
          hp = pos 100;
          state = SoldierStateName.idle;
          is_immune = true;
          tower_target = negsuc 0;
          soldier_target = negsuc 0;
          destination = at_cell (negsuc 0) (negsuc 0);
        }
        ∷ [];
    enemy_soldiers =
        record {
          id = pos 0;
          position = at_cell (pos 1) (pos 1);
          hp = pos 100;
          state = SoldierStateName.idle;
          is_immune = false;
          tower_target = negsuc 0;
          soldier_target = negsuc 0;
          destination = at_cell (negsuc 0) (negsuc 0);
        }
        ∷ [];
    towers =
        record {
          id = pos 9;
          position = at_cell (pos 1) (pos 0);
          hp = pos 10;
          level = pos 1;
          upgrade_tower = false;
          suicide = false;
        }
        ∷ [];
    enemy_towers =
        record {
          id = pos 7;
          position = at_cell (pos 1) (pos 1);
          hp = pos 10;
          level = pos 1;
          upgrade_tower = false;
          suicide = false;
        }
        ∷ [];
    num_towers = 1;
    num_enemy_towers = 1;
    money = pos 300;
  };
}

abbrev pub blanks : PerPlayer (PlayerState whole)
blanks = record { first = blank; second = blank }

shows : update_player_states game blanks ≡ ok shown
unfolding update_player_states new_player_map collect new_cell get_element_by_offset offset_cell
    get_cell? update_player_state assign_tower_attributes assign_soldier_attributes each_round
    assign_tower assign_soldier mark_towers mark_tower modify_cell copy_rows copy_to floor vdiv
    quotient flip_position flip_map flip_row flip_pair swap_cells count_up ◌-ℤ◌ ◌*ℤ◌
shows = refl

game-HasTeams : HasTeams game 1
game-HasTeams = record { team1 = refl; team2 = refl }

blanks-IsSquare : (q : PlayerId) → IsSquare 2 (at blanks q).map
blanks-IsSquare player1 = record { rows = refl; columns = two }
  where
    two : (i : ℕ) → i < 2 → row_length blank.map i ≡ 2
    two zero h = refl
    two (suc zero) h = refl
    two (suc (suc i)) h = let c : ⊥ = omega arith in elim c [ ]
blanks-IsSquare player2 = record { rows = refl; columns = two }
  where
    two : (i : ℕ) → i < 2 → row_length blank.map i ≡ 2
    two zero h = refl
    two (suc zero) h = refl
    two (suc (suc i)) h = let c : ⊥ = omega arith in elim c [ ]

update_player_states-Shows_example : Shows game player2 shown.second
update_player_states-Shows_example =
    update_player_states-Shows game 1 blanks shown player2 game-HasTeams shows

update_player_states-ShowsCell_example : AllCells (ShowsCell game.map player2) shown.second.map
update_player_states-ShowsCell_example =
    update_player_states-ShowsCell whole-IsExact game blanks shown player2 (omega arith) refl
      blanks-IsSquare shows

idle_turn_example :
    (k : ℕ) × (execute_player_commands syncer_rules shown
        (record { first = false; second = true })
        game
      ≡ ok (counted game k))
idle_turn_example =
    idle_turn refl whole-IsExact syncer_rules game 1 blanks shown
      (record { first = false; second = true }) game-HasTeams (omega arith) refl blanks-IsSquare
      shows
