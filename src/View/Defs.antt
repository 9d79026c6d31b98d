-- ===== src/View/Defs.antt =====
-- state/state_syncer/state_syncer.cpp: `UpdatePlayerStates`, less the call of the logger at its end.
use codecharacter_simulator.Prelude.{
  ℕ, zero, suc, true, false, not, ◌||◌, List, [], ◌∷◌, map, pos, length, get_cell?, modify_cell,
  Result, ok, err, undefined, or_err, ◌>>=◌, if◌then◌else◌,
}
use codecharacter_simulator.Players.{PlayerId, player1, player2, PerPlayer, at, enemy}
use codecharacter_simulator.Physics.Double.{Double}
use codecharacter_simulator.Physics.Vector.{of_ints, vdiv, floor}
use codecharacter_simulator.Actor.Tower.{Tower}
use codecharacter_simulator.Money.{get_balance}
use codecharacter_simulator.Map.{GameMap, MapElement, get_size, get_element_by_offset, index_of}
use codecharacter_simulator.Game.Defs.{State}
use codecharacter_simulator.Syncer.PlayerState.{PlayerMapElement, PlayerState}
use codecharacter_simulator.Syncer.Commands.{as_seen}
use codecharacter_simulator.View.Flip.{PlayerMap, flip_map}
use codecharacter_simulator.View.Actors.{assign_tower_attributes, assign_soldier_attributes}

-- A loop that pushes back `n` values, from the index `i` on.
unfoldable pub collect {ℓ} : {A : Type ℓ} → ℕ → ℕ → (ℕ → Result A) → Result (List A)
collect zero i f = ok []
collect (suc n) i f = do x ← f i; rest ← collect n (suc i) f; ok (x ∷ rest)

-- `std::copy` to the begin of an array of fixed length.
unfoldable pub copy_to {ℓ} : {A : Type ℓ} → List A → List A → Result (List A)
copy_to [] v = ok v
copy_to (x ∷ xs) [] = err undefined
copy_to (x ∷ xs) (y ∷ v) = do rest ← copy_to xs v; ok (x ∷ rest)

-- The loop over the rows of the map.
unfoldable pub copy_rows : PlayerMap → PlayerMap → Result PlayerMap
copy_rows [] v = ok v
copy_rows (row ∷ rows) [] = err undefined
copy_rows (row ∷ rows) (old ∷ v) = do
  new ← copy_to row old
  rest ← copy_rows rows v
  ok (new ∷ rest)

-- The cell's `valid_territory`, as the double loop over the map sets it.
abbrev pub mark_valid : PlayerMapElement → PlayerMapElement
mark_valid e = record e {
  valid_territory = if not e.territory || e.enemy_territory then false else true;
}

abbrev pub mark_taken : PlayerMapElement → PlayerMapElement
mark_taken e = record e { valid_territory = false }

abbrev pub validate : PlayerMap → PlayerMap
validate g = map (λ row. map mark_valid row) g

module _ {D : Double} where
  -- `valid_territory` is not set yet; every path sets it before it is read.
  abbrev pub new_element : MapElement D → PlayerMapElement
  new_element e = record {
    territory = e.ownership.first;
    enemy_territory = e.ownership.second;
    valid_territory = false;
    build_tower = false;
  }

  unfoldable pub new_cell : GameMap D → ℕ → ℕ → Result PlayerMapElement
  new_cell m i j = do e ← get_element_by_offset m (of_ints D (pos i) (pos j)); ok (new_element e)

  unfoldable pub new_player_map : GameMap D → Result PlayerMap
  new_player_map m = collect (get_size m) 0 (λ i. collect (get_size m) 0 (new_cell m i))

  -- `player_map[x][y].valid_territory = false` for the cell of a tower.
  unfoldable pub mark_tower : PlayerId → GameMap D → Tower D → PlayerMap → Result PlayerMap
  mark_tower p m t g = do
    let offset = floor D (vdiv D (as_seen p m t.position) (D.of_int m.element_size))
    i ← index_of (D.to_int offset.x)
    j ← index_of (D.to_int offset.y)
    e ← or_err (get_cell? g i j) undefined
    ok (modify_cell g i j mark_taken)

  unfoldable pub mark_towers : PlayerId → GameMap D → List (Tower D) → PlayerMap → Result PlayerMap
  mark_towers p m [] g = ok g
  mark_towers p m (t ∷ ts) g = mark_tower p m t g >>= mark_towers p m ts

  -- The body of the loop over the players, on the map as it stands then.
  unfoldable pub update_player_state :
      State D → PlayerId → PlayerMap → PlayerState D → Result (PlayerMap × PlayerState D)
  update_player_state s p g view = do
    own_towers ← assign_tower_attributes s p false view.towers
    other_towers ← assign_tower_attributes s (enemy p) true view.enemy_towers
    own_soldiers ← assign_soldier_attributes s p false view.soldiers
    other_soldiers ← assign_soldier_attributes s (enemy p) true view.enemy_soldiers
    marked ← mark_towers p s.map (at s.tower_managers p).towers (validate g)
    shown ← copy_rows marked view.map
    ok (
      marked,
      record {
        map = shown;
        soldiers = own_soldiers;
        enemy_soldiers = other_soldiers;
        towers = own_towers;
        enemy_towers = other_towers;
        num_towers = length (at s.tower_managers p).towers;
        num_enemy_towers = length (at s.tower_managers (enemy p)).towers;
        money = get_balance s.money_manager p;
      },
    )

  unfoldable pub update_player_states :
      State D → PerPlayer (PlayerState D) → Result (PerPlayer (PlayerState D))
  update_player_states s views = do
    g ← new_player_map s.map
    (g₁, view₁) ← update_player_state s player1 g views.first
    (g₂, view₂) ← update_player_state s player2 (flip_map g₁) views.second
    ok (record { first = view₁; second = view₂ })
