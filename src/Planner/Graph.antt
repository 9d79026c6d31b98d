-- ===== src/Planner/Graph.antt =====
-- The graph that the constructor of the path planner searches: neighbors lie on the map.
use codecharacter_simulator.Prelude.{
  ℕ, zero, suc, ◌≡◌, refl, subst, Bool, true, false, ◌&&◌, ltb, List, [], ◌∷◌, ◌++◌, inl, inr, ◌⊎◌,
  ok, some, if◌then◌else◌, arith,
}
use codecharacter_simulator.Physics.Double.{Double}
use codecharacter_simulator.Map.{GameMap, get_size}
use codecharacter_simulator.Planner.Defs.{Node, Matrix, below, left_of, find_neighbors}
use codecharacter_simulator.Planner.Ways.{In, cell_of}
use codecharacter_simulator.Planner.Fuel.{OnMap}
use codecharacter_simulator.Planner.Plan.{IsPlan}
use codecharacter_simulator.Planner.Positions.{PathPlanner, neighbors_at}

In-append : (d : Node) (xs ys : List Node) → In d (xs ++ ys) → In d xs ⊎ In d ys
In-append d [] ys i = inr i
In-append d (x ∷ xs) ys (inl e) = inl (inl e)
In-append d (x ∷ xs) ys (inr i) = elim (In-append d xs ys i) [ inl j ↦ inl (inr j) | inr k ↦ inr k ]

-- The neighbors that `on_map` lets through.
if_on_map :
    (n : ℕ) (c d : Node) (b : Bool)
    → (ltb c.0 n && ltb c.1 n) ≡ b
    → In d (if b then c ∷ [] else [])
    → OnMap n d
if_on_map n c d true e (inl same) = subst (OnMap n) same (ground arith, ground arith)
if_on_map n c d true e (inr i) = elim i [ ]
if_on_map n c d false e i = elim i [ ]

pub find_neighbors-OnMap :
    (n : ℕ) (land : Bool) (i j : ℕ) (d : Node) → In d (find_neighbors n land i j) → OnMap n d
unfolding find_neighbors
find_neighbors-OnMap n false i j d h = elim h [ ]
find_neighbors-OnMap n true i j d h = elim (In-append d _ _ h) [
  | inr left ↦ from_left i left
  | inl h₁ ↦ elim (In-append d _ _ h₁) [
    | inr right ↦ if_on_map n (suc i, j) d _ refl right
    | inl h₂ ↦ elim (In-append d _ _ h₂) [
      | inr low ↦ from_below j low
      | inl above ↦ if_on_map n (i, suc j) d _ refl above
    ]
  ]
]
  where
    from_below : (k : ℕ) → In d (below n i k) → OnMap n d
    from_below zero h = elim h [ ]
    from_below (suc k) h = if_on_map n (i, k) d _ refl h

    from_left : (k : ℕ) → In d (left_of n k j) → OnMap n d
    from_left zero h = elim h [ ]
    from_left (suc k) h = if_on_map n (k, j) d _ refl h

module _ {D : Double} where
  -- For every node of the map the planner has the neighbors that the map gives it, and a plan.
  pub record IsPlanned (m : GameMap D) (p : PathPlanner D) (c : Node) : Type 0 where
    pub neighbors : List Node
    pub listed : cell_of p.adjacency_list c ≡ some neighbors
    pub from_map : neighbors_at m c.0 c.1 ≡ ok neighbors
    pub on_map : (d : Node) → In d neighbors → OnMap (get_size m) d
    pub paths : Matrix Node
    pub planned : cell_of p.paths c ≡ some paths
    pub plan : IsPlan p.adjacency_list c (get_size m) paths
