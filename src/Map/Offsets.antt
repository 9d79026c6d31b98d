-- ===== src/Map/Offsets.antt =====
-- A cell of the map is looked up by a vector of two `double`s: for whole numbers that is the cell
-- with these numbers.
use codecharacter_simulator.Prelude.{
  ℕ, ◌≤◌, ◌≡◌, pos, ok, err, out_of_range, arith, if◌then◌else◌, ◌&&◌, ltb,
}
use codecharacter_simulator.Physics.Double.{Double, IsExact, IsInt}
use codecharacter_simulator.Physics.Vector.{of_ints}
use codecharacter_simulator.Map.{GameMap, get_size, offset_cell}

module _ {D : Double} (exact : IsExact D) where
  int : {n : ℕ} → n ≤ 2147483647 → IsInt (pos n)
  int h = omega arith

  -- For the `int`s `i` and `j`, none below zero, `GetElementByOffset` refers to the cell `(i, j)` if
  -- both lie below the size of the map, and throws `out_of_range` otherwise.
  pub offset_cell_ints :
      (m : GameMap D) (i j : ℕ)
      → get_size m ≤ 2147483647
      → i ≤ 2147483647
      → j ≤ 2147483647
      → offset_cell m (of_ints D (pos i) (pos j))
        ≡ (if ltb i (get_size m) && ltb j (get_size m) then ok (i, j) else err out_of_range)
  unfolding offset_cell
  offset_cell_ints m i j hs hi hj =
      rw
        (
          exact.leb_of_int (pos (get_size m)) (pos i) (int hs) (int hi),
          exact.leb_of_int (pos (get_size m)) (pos j) (int hs) (int hj),
          exact.ltb_of_int (pos i) (pos 0) (int hi) (omega arith),
          exact.ltb_of_int (pos j) (pos 0) (int hj) (omega arith),
          exact.floor_of_int (pos i) (int hi),
          exact.floor_of_int (pos j) (int hj),
          exact.to_int-of_int (pos i) (int hi),
          exact.to_int-of_int (pos j) (int hj),
        )
        (ground arith)
