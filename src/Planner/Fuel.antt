-- ===== src/Planner/Fuel.antt =====
-- The search ends: every round takes a node from the queue, and every node comes into it once.
use codecharacter_simulator.Prelude.{
  ℕ, zero, suc, ◌+◌, ◌*◌, ◌<◌, ◌≤◌, ◌≡◌, refl, sym, ap, subst, ◌∙◌, inl, inr, undefined, or_err,
  >>=-ok, Bool, true, false, List, [], ◌∷◌, Option, none, some, length, length-append, get_elem?,
  get_cell?, modify, modify_cell, replicate, Result, ok, arith,
}
use codecharacter_simulator.Planner.Defs.{
  Node, Matrix, init_matrix, Search, visit_if, visit, visit_all, neighbors_of, next_round, search,
  first_search,
}
use codecharacter_simulator.Planner.Ways.{In, In-push, cell_of, mark_there}

-- The cells that have not been visited, in a row and in a matrix.
abbrev unvisited_row : List Bool → ℕ
unvisited_row [] = 0
unvisited_row (true ∷ r) = unvisited_row r
unvisited_row (false ∷ r) = suc (unvisited_row r)

abbrev pub unvisited : Matrix Bool → ℕ
unvisited [] = 0
unvisited (r ∷ v) = unvisited_row r + unvisited v

mark_row :
    (r : List Bool) (j : ℕ)
    → get_elem? r j ≡ some false
    → suc (unvisited_row (modify r j (λ _. true))) ≡ unvisited_row r
mark_row [] j h = cc
mark_row (true ∷ r) zero h = cc
mark_row (false ∷ r) zero h = refl
mark_row (true ∷ r) (suc j) h = mark_row r j h
mark_row (false ∷ r) (suc j) h = ap suc (mark_row r j h)

mark_cell :
    (v : Matrix Bool) (i j : ℕ)
    → get_cell? v i j ≡ some false
    → suc (unvisited (modify_cell v i j (λ _. true))) ≡ unvisited v
unfolding get_cell? modify_cell
mark_cell [] i j h = cc
mark_cell (r ∷ v) zero j h = omega (arith, mark_row r j h)
mark_cell (r ∷ v) (suc i) j h = omega (arith, mark_cell v i j h)

-- What is left to do: the nodes that are queued or not visited.
abbrev pub work : Search → ℕ
work s = unvisited s.visited + length s.queue

abbrev pub OnMap : ℕ → Node → Type 0
OnMap n c = (c.0 < n) × (c.1 < n)

-- Every node of the map has a list of neighbors, and these lie on the map.
abbrev pub IsGraph : ℕ → Matrix (List Node) → Type 0
IsGraph n adjacency =
    (c : Node)
    → OnMap n c
    → (ns : List Node) × (cell_of adjacency c ≡ some ns) × ((d : Node) → In d ns → OnMap n d)

-- The search knows the cells of the map, and stays on it.
pub record IsOn (n : ℕ) (s : Search) : Type 0 where
  pub cells : (c : Node) → OnMap n c → (b : Bool) × (cell_of s.visited c ≡ some b)
  pub queued : (c : Node) → In c s.queue → OnMap n c

-- A call that returns, stays on the map and does no more than `work`.
abbrev Ends : ℕ → Result Search → ℕ → Type 0
Ends n run w = (t : Search) × (run ≡ ok t) × IsOn n t × (work t ≡ w)

visit-Ends :
    (n : ℕ) (current c : Node) (s : Search)
    → IsOn n s
    → OnMap n c
    → Ends n (visit current c s) (work s)
unfolding visit
visit-Ends n current c s h on = by_cell (cell_of s.visited c) refl
  where
    gone : {b : Bool} → none ≡ some b → ⊥
    gone q = cc

    by_cell : (o : Option Bool) → cell_of s.visited c ≡ o → Ends n (visit_if current c s o) (work s)
    by_cell none e = let (b, there) = h.cells c on in absurd (gone (sym e ∙ there))
    by_cell (some true) e = (s, refl, h, refl)
    by_cell (some false) e = (
      _,
      refl,
      record {
        cells = λ d on_d. let (b, there) = h.cells d on_d in mark_there s.visited c d b there;
        queued = λ d i. elim (In-push d s.queue c i) [
          | inl j ↦ h.queued d j
          | inr same ↦ subst (OnMap n) same on
        ];
      },
      omega (arith, mark_cell s.visited c.0 c.1 e, length-append s.queue (c ∷ [])),
    )

visit_all-Ends :
    (n : ℕ) (current : Node) (cs : List Node) (s : Search)
    → IsOn n s
    → ((d : Node) → In d cs → OnMap n d)
    → Ends n (visit_all current cs s) (work s)
unfolding visit_all
visit_all-Ends n current [] s h on = (s, refl, h, refl)
visit_all-Ends n current (c ∷ cs) s h on =
    let (t, e, g, w) = visit-Ends n current c s h (on c (inl refl)) in
    let (u, e', g', w') = visit_all-Ends n current cs t g (λ d i. on d (inr i)) in
    (u, >>=-ok (visit current c s) (visit_all current cs) t e e', g', w' ∙ w)

round_ends :
    (n : ℕ) (go_on : Search → Result Search) (adjacency : Matrix (List Node)) (s : Search)
    (q : List Node)
    → s.queue ≡ q
    → IsGraph n adjacency
    → IsOn n s
    → ((u : Search) → IsOn n u → suc (work u) ≡ work s → (t : Search) × (go_on u ≡ ok t) × IsOn n t)
    → (t : Search) × (next_round go_on adjacency s q ≡ ok t) × IsOn n t
round_ends n go_on adjacency s [] e graph h later = (s, refl, h)
round_ends n go_on adjacency s (current ∷ rest) e graph h later =
    let (ns, list, on) = graph current (h.queued current (subst (In current) (sym e) (inl refl))) in
    let taken : IsOn n (record s { queue = rest }) = record {
      cells = h.cells;
      queued = λ c i. h.queued c (subst (In c) (sym e) (inr i));
    } in
    let (u, run, g, w) = visit_all-Ends n current ns (record s { queue = rest }) taken on in
    let (t, end, f) = later u g (omega (arith, w, ap length e)) in
    (
      t,
      >>=-ok (neighbors_of adjacency current) _ ns (ap (λ o. or_err o undefined) list)
          (>>=-ok (visit_all current ns (record s { queue = rest })) go_on u run end),
      f,
    )

row_of_false : (n : ℕ) → unvisited_row (replicate n false) ≡ n
row_of_false zero = refl
row_of_false (suc n) = ap suc (row_of_false n)

-- With fuel for the work that is left the search over a graph returns.
pub search_ends :
    (n fuel : ℕ) (adjacency : Matrix (List Node)) (s : Search)
    → IsGraph n adjacency
    → IsOn n s
    → work s < fuel
    → (t : Search) × (search fuel adjacency s ≡ ok t) × IsOn n t
unfolding search
search_ends n zero adjacency s graph h less = let c : ⊥ = omega (arith, less) in elim c [ ]
search_ends n (suc fuel) adjacency s graph h less =
    round_ends n (search fuel adjacency) adjacency s s.queue refl graph h
      (λ u g w. search_ends n fuel adjacency u graph g (omega (arith, less, w)))

unvisited-replicate : (n m : ℕ) → unvisited (replicate n (replicate m false)) ≡ n * m
unvisited-replicate zero m = omega arith
unvisited-replicate (suc n) m = omega (arith, row_of_false m, unvisited-replicate n m)

row_marked : (r : List Bool) (j : ℕ) → unvisited_row (modify r j (λ _. true)) ≤ unvisited_row r
row_marked [] j = omega arith
row_marked (true ∷ r) zero = omega arith
row_marked (false ∷ r) zero = omega arith
row_marked (true ∷ r) (suc j) = row_marked r j
row_marked (false ∷ r) (suc j) = omega (arith, row_marked r j)

marked : (v : Matrix Bool) (i j : ℕ) → unvisited (modify_cell v i j (λ _. true)) ≤ unvisited v
unfolding modify_cell
marked [] i j = omega arith
marked (r ∷ v) zero j = omega (arith, row_marked r j)
marked (r ∷ v) (suc i) j = omega (arith, marked v i j)

-- The work of a search on a map of `n` rows.
pub work-first_search : (n : ℕ) (node : Node) → work (first_search n node) < suc (suc (n * n))
work-first_search n node =
    omega (arith, marked (init_matrix false n) node.0 node.1, unvisited-replicate n n)
