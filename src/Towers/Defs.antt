-- ===== src/Towers/Defs.antt =====
-- The state of a `TowerManager`, and the bounds of a tower's territory.
use codecharacter_simulator.Prelude.{
  ℕ, Bool, ◌&&◌, List, ℤ, pos, ◌-ℤ◌, min_ℤ, max_ℤ, in_loop, Result, ok, ◌>>=◌,
}
use codecharacter_simulator.Players.{PlayerId}
use codecharacter_simulator.Physics.Double.{Double}
use codecharacter_simulator.Physics.Vector.{Vector, vdiv, floor}
use codecharacter_simulator.Actor.Base.{ActorId}
use codecharacter_simulator.Actor.Tower.{Tower, of_level}
use codecharacter_simulator.Map.{GameMap}
use codecharacter_simulator.Money.{MoneyManager}

-- The static vectors `build_costs`, `tower_ranges` and `Tower::max_hp_levels`.
pub record TowerRules : Type 0 where
  pub build_costs : List ℤ
  pub tower_ranges : List ℤ
  pub max_hp_levels : List ℤ

-- `towers_to_delete[0]` and `[1]` are the dead towers of two turns.
pub record TowerManager (D : Double) : Type 0 where
  pub towers : List (Tower D)
  pub player_id : PlayerId
  pub towers_to_build_offsets : List (Vector D)
  pub towers_to_upgrade : List ActorId
  pub towers_to_suicide : List ActorId
  pub towers_to_delete_next : List (Tower D)
  pub towers_to_delete_last : List (Tower D)
  pub territory_refs : List (List ℤ)

-- What an update of a tower manager can reach: the manager, the shared money manager and map, and
-- the counter of actor identifiers.
pub record TowerScene (D : Double) : Type 0 where
  pub manager : TowerManager D
  pub money : MoneyManager
  pub map : GameMap D
  pub next_id : ActorId

-- The two corners that `CalculateBounds` returns; they are computed as `int`s.
pub record Bounds : Type 0 where
  pub lower_x : ℤ
  pub upper_x : ℤ
  pub lower_y : ℤ
  pub upper_y : ℤ

-- Whether the loops over the bounds come to the cell `(i, j)`.
abbrev pub inside : Bounds → ℕ → ℕ → Bool
inside b i j = in_loop b.lower_x b.upper_x i && in_loop b.lower_y b.upper_y j

module _ {D : Double} where
  open D use {of_int, to_int, add, sub}

  -- The bounds for a tower at a position, of a range, on a map with cells and a size.
  unfoldable pub bounds_of : ℤ → ℤ → Vector D → ℤ → Bounds
  bounds_of map_size element_size position range =
      let tower_offset = floor D (vdiv D position (of_int element_size)) in
      record {
        lower_x = max_ℤ (to_int (sub tower_offset.x (of_int range))) (pos 0);
        upper_x = min_ℤ (to_int (add tower_offset.x (of_int range))) (map_size -ℤ pos 1);
        lower_y = max_ℤ (to_int (sub tower_offset.y (of_int range))) (pos 0);
        upper_y = min_ℤ (to_int (add tower_offset.y (of_int range))) (map_size -ℤ pos 1);
      }

  -- `CalculateBounds`, with the map's `GetSize()` and `GetElementSize()`.
  unfoldable pub calculate_bounds : TowerRules → ℕ → ℤ → Tower D → Result Bounds
  calculate_bounds r map_size element_size t = do
    range ← of_level r.tower_ranges t.tower_level
    ok (bounds_of (pos map_size) element_size t.position range)
