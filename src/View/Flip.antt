-- ===== src/View/Flip.antt =====
-- state/state_syncer/state_syncer.cpp: `FlipMap`, in place.
use codecharacter_simulator.Prelude.{
  ℕ, zero, suc, [], ◌∷◌, ◌-◌, ◌/◌, ◌%◌, ◌==◌, List, Option, some, length, get_cell?, modify_cell,
  count_up, if◌then◌else◌,
}
use codecharacter_simulator.Syncer.PlayerState.{PlayerMapElement}

-- `std::swap(e.territory, e.enemy_territory)`.
abbrev pub swap_territory : PlayerMapElement → PlayerMapElement
swap_territory e = record e { territory = e.enemy_territory; enemy_territory = e.territory }

abbrev pub PlayerMap : Type 0
PlayerMap = List (List PlayerMapElement)

-- `player_map[i].size()`.
abbrev pub row_length : PlayerMap → ℕ → ℕ
row_length [] i = 0
row_length (row ∷ g) zero = length row
row_length (row ∷ g) (suc i) = row_length g i

abbrev pub put_both :
    PlayerMap → ℕ → ℕ → ℕ → ℕ → Option PlayerMapElement → Option PlayerMapElement → PlayerMap
put_both g i j a b (some x) (some y) = modify_cell (modify_cell g i j (λ _. y)) a b (λ _. x)
put_both g i j a b _ _ = g

-- `std::swap(g[i][j], g[a][b])`; the cells are there, since the map is square.
unfoldable pub swap_cells : PlayerMap → ℕ → ℕ → ℕ → ℕ → PlayerMap
swap_cells g i j a b = put_both g i j a b (get_cell? g i j) (get_cell? g a b)

-- The three swaps in the body of both loops.
unfoldable pub flip_pair : ℕ → ℕ → ℕ → PlayerMap → PlayerMap
flip_pair map_size i j g =
    let a = map_size - 1 - i in
    let b = map_size - 1 - j in
    swap_cells (modify_cell (modify_cell g i j swap_territory) a b swap_territory) i j a b

unfoldable pub flip_row : ℕ → ℕ → PlayerMap → PlayerMap
flip_row map_size i g = count_up (row_length g i) 0 (flip_pair map_size i) g

unfoldable pub flip_map : PlayerMap → PlayerMap
flip_map g =
    let map_size = length g in
    let halves = count_up (map_size / 2) 0 (flip_row map_size) g in
    if map_size % 2 == 0
    then halves
    else count_up (map_size / 2) 0 (flip_pair map_size (map_size / 2)) halves
