-- ===== src/Planner/Positions.antt =====
-- state/path_planner/path_planner.cpp and simple_path_planner.cpp: the constructor, and the next
-- position of a soldier.
use codecharacter_simulator.Prelude.{
  ℕ, Bool, not, ◌||◌, List, ℤ, pos, ◌*ℤ◌, get_cell?, Result, ok, out_of_range, undefined, or_err,
  throw_if, ◌>>=◌, ◌>>◌, if◌then◌else◌,
}
use codecharacter_simulator.Physics.Double.{Double}
use codecharacter_simulator.Physics.Vector.{
  Vector, of_ints, veq, vadd, vsub, vscale, vdiv, magnitude, distance,
}
use codecharacter_simulator.Map.{GameMap, get_size, get_element_by_offset, index_of}
use codecharacter_simulator.Towers.Handlers.{half}
use codecharacter_simulator.View.Defs.{collect}
use codecharacter_simulator.Planner.Defs.{
  Node, Matrix, is_land, find_neighbors, compute_all_paths_from_node,
}

-- The class `PathPlanner`.
pub record PathPlanner (D : Double) : Type 0 where
  pub map : GameMap D
  pub adjacency_list : Matrix (List Node)
  pub paths : Matrix (Matrix Node)

-- `ceil(std::min(limit, ceil(std::max(0.0, x))))`.
abbrev clamp : (D : Double) → D.F → D.F → D.F
clamp D limit x =
    let above = D.ceil (if D.ltb (D.of_int (pos 0)) x then x else D.of_int (pos 0)) in
    D.ceil (if D.ltb above limit then above else limit)

-- The middle of a cell in one direction.
abbrev middle_of : (D : Double) → ℤ → D.F → D.F
middle_of D element_size x =
    D.floor (D.add (D.mul x (D.of_int element_size)) (D.of_int (half element_size)))

module _ {D : Double} where
  open D use {of_int, to_int, floor as floor_of, div, leb, ltb}

  unfoldable pub neighbors_at : GameMap D → ℕ → ℕ → Result (List Node)
  neighbors_at m i j = do
    e ← get_element_by_offset m (of_ints D (pos i) (pos j))
    ok (find_neighbors (get_size m) (is_land e.terrain_type) i j)

  -- The constructor.
  unfoldable pub new_path_planner : GameMap D → Result (PathPlanner D)
  new_path_planner m = do
    adjacency ← collect (get_size m) 0 (λ i. collect (get_size m) 0 (neighbors_at m i))
    paths ← collect (get_size m) 0 (λ i.
        collect (get_size m) 0 (λ j. compute_all_paths_from_node (get_size m) adjacency (i, j)))
    ok (record { map = m; adjacency_list = adjacency; paths = paths })

  abbrev is_off : GameMap D → Vector D → Bool
  is_off m v =
      ltb v.x (of_int (pos 0))
      || ltb v.y (of_int (pos 0))
      || leb (of_int (pos (get_size m))) v.x
      || leb (of_int (pos (get_size m))) v.y

  unfoldable pub get_next_node : PathPlanner D → Vector D → Vector D → Result (Vector D)
  get_next_node p source destination = do
    throw_if (is_off p.map source) out_of_range
    throw_if (is_off p.map destination) out_of_range
    a ← get_element_by_offset p.map source
    throw_if (not (is_land a.terrain_type)) out_of_range
    b ← get_element_by_offset p.map destination
    throw_if (not (is_land b.terrain_type)) out_of_range
    i ← index_of (to_int destination.x)
    j ← index_of (to_int destination.y)
    k ← index_of (to_int source.x)
    l ← index_of (to_int source.y)
    next ← or_err (get_cell? p.paths i j) undefined
    c ← or_err (get_cell? next k l) undefined
    ok (of_ints D (pos c.0) (pos c.1))

  -- A step of the length `speed` in the direction of a point.
  abbrev step_towards : Vector D → Vector D → ℤ → Vector D
  step_towards source dest speed =
      let direction = vsub D dest source in
      vadd D source (vscale D (vdiv D direction (magnitude D direction)) (of_int speed))

  abbrev offset_of : ℤ → Vector D → Vector D
  offset_of element_size v = record {
    x = floor_of (div v.x (of_int element_size));
    y = floor_of (div v.y (of_int element_size));
  }

  unfoldable pub get_next_position : PathPlanner D → Vector D → Vector D → ℤ → Result (Vector D)
  get_next_position p source dest speed = do
    let element_size = p.map.element_size
    let limit = of_int (element_size *ℤ pos (get_size p.map))
    new ←
        (if leb (distance D source dest) (of_int speed)
          then ok dest
          else (get_next_node p (offset_of element_size source) (offset_of element_size dest)
              >>= λ next. ok (
                  step_towards source
                    (if veq D next (offset_of element_size dest) then dest else record {
                      x = middle_of D element_size next.x;
                      y = middle_of D element_size next.y;
                    })
                    speed)))
    ok (record { x = clamp D limit new.x; y = clamp D limit new.y })

  -- `SimplePathPlanner::GetNextPosition`, the planner that the program uses.
  unfoldable pub simple_next_position : Vector D → Vector D → ℤ → Result (Vector D)
  simple_next_position source dest speed =
      if leb (distance D source dest) (of_int speed)
      then ok dest
      else ok (step_towards source dest speed)
