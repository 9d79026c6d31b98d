-- ===== src/Planner/Plan.antt =====
-- `ComputeAllPathsFromNode` as a whole.
use codecharacter_simulator.Prelude.{
  ℕ, zero, suc, ◌<◌, ◌*◌, ◌≡◌, refl, sym, ap, ◌∙◌, subst, Bool, true, false, ◌&&◌, ltb, List, [],
  none, some, ok, get_cell?-modify_cell, get_cell?-replicate, if_yes, if_no, Bool-cases, inl, inr,
  ◌⊎◌, >>=-ok, arith,
}
use mathlib.Core.Option
use codecharacter_simulator.Planner.Defs.{
  Node, Matrix, init_matrix, Search, search, first_search, compute_all_paths_from_node,
}
use codecharacter_simulator.Planner.Fuel.{OnMap, IsGraph, IsOn, search_ends, work-first_search}
use codecharacter_simulator.Planner.Ways.{
  In, cell_of, same_node, Seen, mark, marked-Seen, mark-Seen, mark-none, mark_there, same_node-eq,
  Edge, Reaches, here, step, Way, IsSearch,
}
use codecharacter_simulator.Planner.Steps.{search-IsSearch}

-- A new matrix has its value on the map, and nothing outside.
blank_cell :
    (n : ℕ) (c : Node)
    → (cell_of (init_matrix false n) c ≡ some false) ⊎ (cell_of (init_matrix false n) c ≡ none)
blank_cell n c = elim (Bool-cases (ltb c.0 n && ltb c.1 n)) [
  | inl e ↦ inl (get_cell?-replicate n n c.0 c.1 false ∙ if_yes _ (some false) none e)
  | inr e ↦ inr (get_cell?-replicate n n c.0 c.1 false ∙ if_no _ (some false) none e)
]

not_blank : (n : ℕ) (c : Node) → Seen (init_matrix false n) c → ⊥
not_blank n c h = elim (blank_cell n c) [ inl e ↦ clash (sym e ∙ h) | inr e ↦ gone (sym e ∙ h) ]
  where
    clash : some false ≡ some true → ⊥
    clash q = cc

    gone : none ≡ some true → ⊥
    gone q = cc

module _ (adjacency : Matrix (List Node)) (node : Node) where
  -- From `c`, `k` steps of the matrix lead to the node, each from a neighbor back to the node whose
  -- neighbor it is.
  abbrev pub Leads : Matrix Node → ℕ → Node → Type 0
  Leads m zero c = c ≡ node
  Leads m (suc k) c = (d : Node) × (cell_of m c ≡ some d) × Edge adjacency d c × Leads m k d

  Way-Leads :
      (v : Matrix Bool) (m : Matrix Node) (k : ℕ) (c : Node)
      → Way adjacency node v m k c
      → Leads m k c
  Way-Leads v m zero c w = w
  Way-Leads v m (suc k) c (d, there, edge, seen, w) = (d, there, edge, Way-Leads v m k d w)

  -- What the matrix that is computed says: the node stands for itself, every node that can be reached
  -- has a way, and every other node of the map has the value that the matrix began with.
  pub record IsPlan (n : ℕ) (m : Matrix Node) : Type 0 where
    pub home : cell_of m node ≡ some node
    pub ways : (c : Node) → Reaches adjacency node c → (k : ℕ) × Leads m k c
    pub others : (c : Node) → OnMap n c → (Reaches adjacency node c → ⊥) → cell_of m c ≡ some (0, 0)

  reached-Seen :
      (s : Search) (last c : Node)
      → IsSearch adjacency node last [] s
      → s.queue ≡ []
      → Reaches adjacency node c
      → Seen s.visited c
  reached-Seen s last c h done here = h.begun
  reached-Seen s last c h done (step {c = b} before edge) =
      elim (h.closed b (reached-Seen s last b h done before)) [
        | inl i ↦ elim (subst (In b) done i) [ ]
        | inr all ↦ elim (all c edge) [ inl k ↦ k | inr (_, i) ↦ elim i [ ] ]
      ]

  -- At its end, the search has a plan.
  search-IsPlan :
      (n : ℕ) (s : Search) (last : Node)
      → IsSearch adjacency node last [] s
      → s.queue ≡ []
      → IsOn n s
      → IsPlan n s.next
  search-IsPlan n s last h done on = record {
    home = h.home;
    ways = λ c reached.
        let (k, w) = h.ways c (reached-Seen s last c h done reached) in
        (k, Way-Leads s.visited s.next k c w);
    others = λ c there apart. by_cell c apart (on.cells c there);
  }
    where
      by_cell :
          (c : Node)
          → (Reaches adjacency node c → ⊥)
          → (b : Bool) × (cell_of s.visited c ≡ some b)
          → cell_of s.next c ≡ some (0, 0)
      by_cell c apart (true, e) = absurd (apart (h.reached c e))
      by_cell c apart (false, e) = h.blank c e

module _ (n : ℕ) (adjacency : Matrix (List Node)) (node : Node) where
  first_search-IsSearch :
      node.0 < n → node.1 < n → IsSearch adjacency node node [] (first_search n node)
  first_search-IsSearch hi hj = record {
    begun = marked-Seen (init_matrix false n) node fresh;
    ways = λ c seen. (0, sym (only c seen));
    queued = λ c i. elim i [
      | inl e ↦
          subst (Seen (mark (init_matrix false n) node)) e
            (marked-Seen (init_matrix false n) node fresh)
      | inr j ↦ elim j [ ]
    ];
    closed = λ c seen. inl (inl (only c seen));
    cells = cells;
    reached = λ c seen. subst (Reaches adjacency node) (only c seen) here;
    home =
        get_cell?-modify_cell (init_matrix (0, 0) n) node.0 node.1 node.0 node.1 (λ _. node)
        ∙ if_yes (same_node node node) _ _ (ground arith)
        ∙ ap (Option.map (λ _. node)) (
            get_cell?-replicate n n node.0 node.1 (0, 0)
            ∙ if_yes (ltb node.0 n && ltb node.1 n) _ _ (ground arith));
    blank = blank;
  }
    where
      fresh : cell_of (init_matrix false n) node ≡ some false
      fresh =
          get_cell?-replicate n n node.0 node.1 false
          ∙ if_yes (ltb node.0 n && ltb node.1 n) _ _ (ground arith)

      clash : some false ≡ some true → ⊥
      clash q = cc

      outside : (b : Bool) → none ≡ some b → ⊥
      outside b q = cc

      blank_next :
          (c : Node)
          → cell_of (init_matrix false n) c ≡ some false
          → cell_of {A = Node} (init_matrix (0, 0) n) c ≡ some (0, 0)
      blank_next c found = elim (Bool-cases (ltb c.0 n && ltb c.1 n)) [
        | inl e ↦ get_cell?-replicate n n c.0 c.1 (0, 0) ∙ if_yes _ (some (0, 0)) none e
        | inr e ↦ absurd (
            outside false
              (sym (get_cell?-replicate n n c.0 c.1 false ∙ if_no _ (some false) none e) ∙ found))
      ]

      blank :
          (c : Node)
          → cell_of (mark (init_matrix false n) node) c ≡ some false
          → cell_of (first_search n node).next c ≡ some (0, 0)
      blank c found = elim (Bool-cases (same_node node c)) [
        | inl same ↦ absurd (
            clash (
              sym found
              ∙ ap (cell_of (mark (init_matrix false n) node)) (sym (same_node-eq node c same))
              ∙ marked-Seen (init_matrix false n) node fresh))
        | inr away ↦
            get_cell?-modify_cell (init_matrix (0, 0) n) node.0 node.1 c.0 c.1 (λ _. node)
            ∙ if_no (same_node node c) _ _ away
            ∙ blank_next c (
                sym (
                  get_cell?-modify_cell (init_matrix false n) node.0 node.1 c.0 c.1 (λ _. true)
                  ∙ if_no (same_node node c) _ _ away)
                ∙ found)
      ]

      only : (c : Node) → Seen (mark (init_matrix false n) node) c → node ≡ c
      only c seen = elim (mark-Seen (init_matrix false n) node c seen) [
        | inl e ↦ e
        | inr k ↦ absurd (not_blank n c k)
      ]

      cells :
          (c : Node) (b : Bool)
          → cell_of (mark (init_matrix false n) node) c ≡ some b
          → (d : Node) × (cell_of (first_search n node).next c ≡ some d)
      cells c b found = elim (Bool-cases (ltb c.0 n && ltb c.1 n)) [
        | inl e ↦
            let blank : cell_of (init_matrix (0, 0) n) c ≡ some (0, 0) =
              get_cell?-replicate n n c.0 c.1 (0, 0) ∙ if_yes _ (some (0, 0)) none e in
            elim (Bool-cases (same_node node c)) [
              | inl same ↦ (
                node,
                get_cell?-modify_cell (init_matrix (0, 0) n) node.0 node.1 c.0 c.1 (λ _. node)
                    ∙ if_yes (same_node node c) _ _ same
                    ∙ ap (Option.map (λ _. node)) blank,
              )
              | inr away ↦ (
                (0, 0),
                get_cell?-modify_cell (init_matrix (0, 0) n) node.0 node.1 c.0 c.1 (λ _. node)
                    ∙ if_no (same_node node c) _ _ away
                    ∙ blank,
              )
            ]
        | inr e ↦ absurd (
            outside b (
              sym (
                mark-none (init_matrix false n) node c
                  (get_cell?-replicate n n c.0 c.1 false ∙ if_no _ (some false) none e))
              ∙ found))
      ]

  first_search-IsOn : OnMap n node → IsOn n (first_search n node)
  first_search-IsOn on = record {
    cells = λ c there.
        mark_there (init_matrix false n) node c false
          (get_cell?-replicate n n c.0 c.1 false ∙ if_yes _ (some false) none (ground arith));
    queued = λ c i. elim i [ inl e ↦ subst (OnMap n) e on | inr j ↦ elim j [ ] ];
  }

  -- On a map where every node has a list of neighbors that lie on the map, the search from a node of the
  -- map returns, and its matrix is a plan: the node stands for itself; from every node that can be
  -- reached along the lists the matrix leads to the node in finitely many steps, each back from a
  -- neighbor to the node whose neighbor it is; the cell of every other node is `(0, 0)`.
  pub compute_all_paths_from_node-IsPlan :
      IsGraph n adjacency
      → node.0 < n
      → node.1 < n
      → (m : Matrix Node) × (compute_all_paths_from_node n adjacency node ≡ ok m)
        × IsPlan adjacency node n m
  unfolding compute_all_paths_from_node
  compute_all_paths_from_node-IsPlan graph hi hj =
      let (t, run, on) =
        search_ends n (suc (suc (n * n))) adjacency (first_search n node) graph
          (first_search-IsOn (hi, hj)) (work-first_search n node) in
      let (last, h, done) =
        search-IsSearch adjacency node (suc (suc (n * n))) node (first_search n node) t
          (first_search-IsSearch hi hj) run in
      let inside : (ltb node.0 n && ltb node.1 n) ≡ true = ground arith in
      (
        t.next,
        rw inside
            (>>=-ok (search (suc (suc (n * n))) adjacency (first_search n node)) _ t run refl),
        search-IsPlan adjacency node n t last h done on,
      )
