-- ===== src/Tests/Planners.antt =====
-- The plan on a small map with a cell of water.
use codecharacter_simulator.Prelude.{
  zero, suc, ◌≡◌, refl, true, false, List, [], ◌∷◌, ok, arith, get_cell?, modify_cell,
}
use codecharacter_simulator.Planner.Defs.{
  Node, Matrix, find_neighbors, compute_all_paths_from_node, search, visit, visit_all,
}
use codecharacter_simulator.Planner.Fuel.{IsGraph}
use codecharacter_simulator.Planner.Graph.{find_neighbors-OnMap}
use codecharacter_simulator.Planner.Positions.{PathPlanner}
use codecharacter_simulator.Tests.Doubles.{whole}
use codecharacter_simulator.Tests.Towers.{map_of}
use codecharacter_simulator.Planner.Plan.{IsPlan, compute_all_paths_from_node-IsPlan}

-- The cell `(1, 0)` is water.
abbrev adjacency : Matrix (List Node)
adjacency =
    (find_neighbors 2 true 0 0 ∷ find_neighbors 2 true 0 1 ∷ [])
    ∷ (find_neighbors 2 false 1 0 ∷ find_neighbors 2 true 1 1 ∷ [])
    ∷ []

plans :
    compute_all_paths_from_node 2 adjacency (0, 0)
    ≡ ok (((0, 0) ∷ (0, 0) ∷ []) ∷ ((0, 0) ∷ (0, 1) ∷ []) ∷ [])
unfolding compute_all_paths_from_node search visit visit_all find_neighbors get_cell? modify_cell
plans = refl

adjacency-IsGraph : IsGraph 2 adjacency
unfolding get_cell?
adjacency-IsGraph (zero, zero) h = (_, refl, find_neighbors-OnMap 2 true 0 0)
adjacency-IsGraph (zero, suc zero) h = (_, refl, find_neighbors-OnMap 2 true 0 1)
adjacency-IsGraph (suc zero, zero) h = (_, refl, find_neighbors-OnMap 2 false 1 0)
adjacency-IsGraph (suc zero, suc zero) h = (_, refl, find_neighbors-OnMap 2 true 1 1)
adjacency-IsGraph (suc (suc i), j) h = let c : ⊥ = omega (arith, h.0) in elim c [ ]
adjacency-IsGraph (zero, suc (suc j)) h = let c : ⊥ = omega (arith, h.1) in elim c [ ]
adjacency-IsGraph (suc zero, suc (suc j)) h = let c : ⊥ = omega (arith, h.1) in elim c [ ]

compute_all_paths_from_node-IsPlan_example :
    (m : Matrix Node) × (compute_all_paths_from_node 2 adjacency (0, 0) ≡ ok m)
    × IsPlan adjacency (0, 0) 2 m
compute_all_paths_from_node-IsPlan_example =
    compute_all_paths_from_node-IsPlan 2 adjacency (0, 0) adjacency-IsGraph (omega arith)
      (omega arith)

-- The planner of a map of land.
abbrev planner : PathPlanner whole
planner = record {
  map = map_of false false;
  adjacency_list =
      (((0, 1) ∷ (1, 0) ∷ []) ∷ ((0, 0) ∷ (1, 1) ∷ []) ∷ [])
      ∷ (((1, 1) ∷ (0, 0) ∷ []) ∷ ((1, 0) ∷ (0, 1) ∷ []) ∷ [])
      ∷ [];
  paths =
      ((((0, 0) ∷ (0, 0) ∷ []) ∷ ((0, 0) ∷ (0, 1) ∷ []) ∷ [])
        ∷ (((0, 1) ∷ (0, 1) ∷ []) ∷ ((0, 0) ∷ (0, 1) ∷ []) ∷ [])
        ∷ [])
      ∷ ((((1, 0) ∷ (1, 1) ∷ []) ∷ ((1, 0) ∷ (1, 0) ∷ []) ∷ [])
          ∷ (((1, 0) ∷ (1, 1) ∷ []) ∷ ((1, 1) ∷ (1, 1) ∷ []) ∷ [])
          ∷ [])
      ∷ [];
}
