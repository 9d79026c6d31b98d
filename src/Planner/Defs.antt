-- ===== src/Planner/Defs.antt =====
-- state/path_planner/path_planner.cpp and simple_path_planner.cpp. A node is a vector of two whole
-- numbers, which index the matrices; here it is these numbers.
use codecharacter_simulator.Prelude.{
  ℕ, zero, suc, ◌*◌, Bool, true, false, ◌&&◌, List, [], ◌∷◌, ◌++◌, ltb, Option, none, some,
  get_cell?, modify_cell, replicate, Result, ok, err, out_of_fuel, undefined, or_err, throw_if, not,
  ◌>>=◌, ◌>>◌, if◌then◌else◌,
}
use codecharacter_simulator.Map.{TerrainType}

abbrev pub Node : Type 0
Node = ℕ × ℕ

-- `matrix<T>`, and `init_matrix`.
abbrev pub Matrix {ℓ} : Type ℓ → Type ℓ
Matrix A = List (List A)

abbrev pub init_matrix {ℓ} : {A : Type ℓ} → A → ℕ → Matrix A
init_matrix a n = replicate n (replicate n a)

abbrev pub is_land : TerrainType → Bool
is_land TerrainType.land = true
is_land TerrainType.water = false

-- A neighbor, if it lies on the map, and those below and to the left of an element.
abbrev on_map : ℕ → Node → List Node
on_map n c = if ltb c.0 n && ltb c.1 n then c ∷ [] else []

abbrev pub below : ℕ → ℕ → ℕ → List Node
below n i zero = []
below n i (suc j) = on_map n (i, j)

abbrev pub left_of : ℕ → ℕ → ℕ → List Node
left_of n zero j = []
left_of n (suc i) j = on_map n (i, j)

-- `FindNeighbors`; the terrain that it tests is that of the element itself.
unfoldable pub find_neighbors : ℕ → Bool → ℕ → ℕ → List Node
find_neighbors n land i j =
    if land then on_map n (i, suc j) ++ below n i j ++ on_map n (suc i, j) ++ left_of n i j else []

-- What a search changes: the queue, and the matrices `visited` and `next_node_matrix`.
pub record Search : Type 0 where
  pub queue : List Node
  pub visited : Matrix Bool
  pub next : Matrix Node

-- The body of the loop over the neighbors of a node, by what `visited` says of the neighbor; both
-- matrices have the size of the map.
abbrev pub visit_if : Node → Node → Search → Option Bool → Result Search
visit_if current c s none = err undefined
visit_if current c s (some true) = ok s
visit_if current c s (some false) = ok (record {
  queue = s.queue ++ (c ∷ []);
  visited = modify_cell s.visited c.0 c.1 (λ _. true);
  next = modify_cell s.next c.0 c.1 (λ _. current);
})

unfoldable pub visit : Node → Node → Search → Result Search
visit current c s = visit_if current c s (get_cell? s.visited c.0 c.1)

unfoldable pub visit_all : Node → List Node → Search → Result Search
visit_all current [] s = ok s
visit_all current (c ∷ cs) s = visit current c s >>= visit_all current cs

-- `adjacency_list[current.x][current.y]`.
abbrev pub neighbors_of : Matrix (List Node) → Node → Result (List Node)
neighbors_of adjacency c = or_err (get_cell? adjacency c.0 c.1) undefined

-- A round of the loop over the queue: its front is taken and its neighbors are visited.
abbrev pub next_round :
    (Search → Result Search) → Matrix (List Node) → Search → List Node → Result Search
next_round go_on adjacency s [] = ok s
next_round go_on adjacency s (current ∷ rest) = do
  ns ← neighbors_of adjacency current
  t ← visit_all current ns (record s { queue = rest })
  go_on t

-- The loop over the queue, with fuel for its rounds.
unfoldable pub search : ℕ → Matrix (List Node) → Search → Result Search
search zero adjacency s = err out_of_fuel
search (suc fuel) adjacency s = next_round (search fuel adjacency) adjacency s s.queue

abbrev pub first_search : ℕ → Node → Search
first_search n node = record {
  queue = node ∷ [];
  visited = modify_cell (init_matrix false n) node.0 node.1 (λ _. true);
  next = modify_cell (init_matrix (0, 0) n) node.0 node.1 (λ _. node);
}

-- `ComputeAllPathsFromNode`, which indexes two matrices by the node. Every node is visited at most once.
unfoldable pub compute_all_paths_from_node : ℕ → Matrix (List Node) → Node → Result (Matrix Node)
compute_all_paths_from_node n adjacency node = do
  throw_if (not (ltb node.0 n && ltb node.1 n)) undefined
  s ← search (suc (suc (n * n))) adjacency (first_search n node)
  ok s.next
