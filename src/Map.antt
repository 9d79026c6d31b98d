-- ===== src/Map.antt =====
-- state/map/: the grid of the game and the ownership of its cells.
pub mod Offsets
use codecharacter_simulator.Prelude.{
  ℕ, Bool, ◌||◌, List, ℤ, pos, negsuc, length, get_cell?, modify_cell, Option, none, some, Result,
  ok, err, out_of_range, undefined, or_err, throw_if, ◌>>=◌, ◌>>◌,
}
use codecharacter_simulator.Players.{PlayerId, PerPlayer, put}
use codecharacter_simulator.Physics.Double.{Double}
use codecharacter_simulator.Physics.Vector.{Vector}

pub data TerrainType : Type 0 where
  land water : TerrainType

pub record MapElement (D : Double) : Type 0 where
  pub position : Vector D
  pub terrain_type : TerrainType
  pub ownership : PerPlayer Bool

-- The class `Map`.
pub record GameMap (D : Double) : Type 0 where
  pub map_elements : List (List (MapElement D))
  pub element_size : ℤ

-- A `double` that is used as an index is truncated; a negative one is out of every vector.
abbrev pub index_of : ℤ → Result ℕ
index_of (pos n) = ok n
index_of (negsuc n) = err undefined

abbrev cell_index : (D : Double) → D.F → D.F → Result (ℕ × ℕ)
cell_index D x y = do
  i ← index_of (D.to_int (D.floor x))
  j ← index_of (D.to_int (D.floor y))
  ok (i, j)

module _ {D : Double} where
  open D use {of_int, leb, ltb, div}

  -- `MapElement::SetOwnership`.
  abbrev pub set_ownership : PlayerId → Bool → MapElement D → MapElement D
  set_ownership p b e = record e { ownership = put e.ownership p b }

  abbrev pub get_size : GameMap D → ℕ
  get_size m = length m.map_elements

  -- The cell that `GetElementByOffset` refers to.
  unfoldable pub offset_cell : GameMap D → Vector D → Result (ℕ × ℕ)
  offset_cell m v = do
    let size = of_int (pos (get_size m))
    throw_if (leb size v.x || leb size v.y || ltb v.x (of_int (pos 0)) || ltb v.y (of_int (pos 0)))
        out_of_range
    cell_index D v.x v.y

  unfoldable pub get_element_by_offset : GameMap D → Vector D → Result (MapElement D)
  get_element_by_offset m v = do
    (i, j) ← offset_cell m v
    or_err (get_cell? m.map_elements i j) undefined

  unfoldable pub get_element_by_xy : GameMap D → Vector D → Result (MapElement D)
  get_element_by_xy m v = do
    let size = of_int (pos (get_size m))
    let x = div v.x (of_int m.element_size)
    let y = div v.y (of_int m.element_size)
    throw_if (leb size x || leb size y || ltb v.x (of_int (pos 0)) || ltb v.y (of_int (pos 0)))
        out_of_range
    (i, j) ← cell_index D x y
    or_err (get_cell? m.map_elements i j) undefined

  -- `SetOwnership` on the cell in row `i` and column `j`.
  unfoldable pub own_cell : GameMap D → ℕ → ℕ → PlayerId → Bool → GameMap D
  own_cell m i j p b = record m {
    map_elements = modify_cell m.map_elements i j (set_ownership p b);
  }
