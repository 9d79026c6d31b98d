-- ===== src/Planner/Steps.antt =====
-- The invariant of the search over its steps.
use codecharacter_simulator.Prelude.{
  ℕ, zero, suc, ◌≡◌, refl, sym, ap, ◌∙◌, subst, Bool, true, false, List, [], ◌∷◌, ◌++◌, Option,
  none, some, Result, ok, get_cell?-modify_cell, modify_cell, if_yes, if_no, Bool-cases, inl, inr,
  ◌⊎◌, ok-injective, >>=-eq-ok, or_err-eq-ok, arith,
}
use mathlib.Core.Option
use mathlib.Core.Option.{some-injective}
use codecharacter_simulator.Planner.Defs.{
  Node, Matrix, Search, visit_if, visit, visit_all, neighbors_of, next_round, search,
}
use codecharacter_simulator.Planner.Ways.{
  In, In-push, push-In, pushed-In, cell_of, same_node, same_node-eq, Seen, mark, Seen-mark,
  marked-Seen, mark-Seen, apart, Edge, Reaches, step, Way, Way-mark, IsSearch,
}

clash : some false ≡ some true → ⊥
clash q = cc

module _ (adjacency : Matrix (List Node)) (node : Node) where
  -- A neighbor that needs no visit.
  skipped :
      (current c : Node) (todo : List Node) (s : Search)
      → Seen s.visited c
      → IsSearch adjacency node current (c ∷ todo) s
      → IsSearch adjacency node current todo s
  skipped current c todo s known h = record {
    begun = h.begun;
    ways = h.ways;
    queued = h.queued;
    cells = h.cells;
    reached = h.reached;
    home = h.home;
    blank = h.blank;
    closed = λ e seen. elim (h.closed e seen) [
      | inl i ↦ inl i
      | inr all ↦ inr (λ d near. elim (all d near) [
        | inl k ↦ inl k
        | inr (same, inl e') ↦ inl (subst (Seen s.visited) e' known)
        | inr (same, inr i) ↦ inr (same, i)
      ])
    ];
  }

  abbrev fresh : Node → Node → Search → Search
  fresh current c s = record {
    queue = s.queue ++ (c ∷ []);
    visited = mark s.visited c;
    next = modify_cell s.next c.0 c.1 (λ _. current);
  }

  -- A neighbor that is visited now.
  visited_now :
      (current c : Node) (todo : List Node) (s : Search)
      → cell_of s.visited c ≡ some false
      → Edge adjacency current c
      → Seen s.visited current
      → IsSearch adjacency node current (c ∷ todo) s
      → IsSearch adjacency node current todo (fresh current c s)
  visited_now current c todo s new near seen_current h = record {
    begun = Seen-mark s.visited c node h.begun;
    ways = λ e seen. elim (mark-Seen s.visited c e seen) [
      | inl same ↦
          let (k, w) = h.ways current seen_current in
          let (old, there) = h.cells c false new in
          subst
            (λ x.
              (k : ℕ) × Way adjacency node (mark s.visited c)
                (modify_cell s.next c.0 c.1 (λ _. current)) k x)
            same
            (
              suc k,
              (
                current,
                get_cell?-modify_cell s.next c.0 c.1 c.0 c.1 (λ _. current)
                    ∙ if_yes (same_node c c) _ _ (ground arith)
                    ∙ ap (Option.map (λ _. current)) there,
                near,
                Seen-mark s.visited c current seen_current,
                Way-mark adjacency node s.visited s.next c current k current new seen_current w,
              ),
            )
      | inr before ↦
          let (k, w) = h.ways e before in
          (k, Way-mark adjacency node s.visited s.next c current k e new before w)
    ];
    queued = λ e i. elim (In-push e s.queue c i) [
      | inl j ↦ Seen-mark s.visited c e (h.queued e j)
      | inr same ↦ subst (Seen (mark s.visited c)) same (marked-Seen s.visited c new)
    ];
    closed = λ e seen. elim (mark-Seen s.visited c e seen) [
      | inl same ↦ inl (subst (λ x. In x (s.queue ++ (c ∷ []))) same (pushed-In s.queue c))
      | inr before ↦ elim (h.closed e before) [
        | inl i ↦ inl (push-In e s.queue c i)
        | inr all ↦ inr (λ d close. elim (all d close) [
          | inl k ↦ inl (Seen-mark s.visited c d k)
          | inr (same, inl e') ↦
              inl (subst (Seen (mark s.visited c)) e' (marked-Seen s.visited c new))
          | inr (same, inr i) ↦ inr (same, i)
        ])
      ]
    ];
    cells = λ e b found. elim (Bool-cases (same_node c e)) [
      | inl same ↦
          let (old, there) = h.cells c false new in
          (
            current,
            get_cell?-modify_cell s.next c.0 c.1 e.0 e.1 (λ _. current)
                ∙ if_yes (same_node c e) _ _ same
                ∙ ap (Option.map (λ _. current))
                    (ap (cell_of s.next) (sym (same_node-eq c e same)) ∙ there),
          )
      | inr away ↦
          let (d, there) = h.cells e b (
            sym (
              get_cell?-modify_cell s.visited c.0 c.1 e.0 e.1 (λ _. true)
              ∙ if_no (same_node c e) _ _ away)
            ∙ found) in
          (
            d,
            get_cell?-modify_cell s.next c.0 c.1 e.0 e.1 (λ _. current)
                ∙ if_no (same_node c e) _ _ away
                ∙ there,
          )
    ];
    reached = λ e seen. elim (mark-Seen s.visited c e seen) [
      | inl same ↦ subst (Reaches adjacency node) same (step (h.reached current seen_current) near)
      | inr before ↦ h.reached e before
    ];
    home =
        get_cell?-modify_cell s.next c.0 c.1 node.0 node.1 (λ _. current)
        ∙ if_no _ _ _ (apart s.visited c node new h.begun)
        ∙ h.home;
    blank = λ e found. elim (Bool-cases (same_node c e)) [
      | inl same ↦ absurd (
          clash (
            sym found
            ∙ ap (cell_of (mark s.visited c)) (sym (same_node-eq c e same))
            ∙ marked-Seen s.visited c new))
      | inr away ↦
          get_cell?-modify_cell s.next c.0 c.1 e.0 e.1 (λ _. current)
          ∙ if_no (same_node c e) _ _ away
          ∙ h.blank e (
              sym (
                get_cell?-modify_cell s.visited c.0 c.1 e.0 e.1 (λ _. true)
                ∙ if_no (same_node c e) _ _ away)
              ∙ found)
    ];
  }

  abbrev Visited : Node → List Node → Search → Type 0
  Visited current todo t = IsSearch adjacency node current todo t × Seen t.visited current

  visit-IsSearch :
      (current c : Node) (todo : List Node) (s t : Search)
      → Edge adjacency current c
      → Seen s.visited current
      → IsSearch adjacency node current (c ∷ todo) s
      → visit current c s ≡ ok t
      → IsSearch adjacency node current todo t × Seen t.visited current
  unfolding visit
  visit-IsSearch current c todo s t near seen h = by_cell (cell_of s.visited c) refl
    where
      by_cell :
          (o : Option Bool)
          → cell_of s.visited c ≡ o
          → visit_if current c s o ≡ ok t
          → Visited current todo t
      by_cell none e k = cc
      by_cell (some true) e k =
          subst (Visited current todo) (ok-injective k) (skipped current c todo s e h, seen)
      by_cell (some false) e k =
          subst (Visited current todo) (ok-injective k)
            (visited_now current c todo s e near seen h, Seen-mark s.visited c current seen)

  visit_all-IsSearch :
      (current : Node) (todo : List Node) (s t : Search)
      → ((c : Node) → In c todo → Edge adjacency current c)
      → Seen s.visited current
      → IsSearch adjacency node current todo s
      → visit_all current todo s ≡ ok t
      → IsSearch adjacency node current [] t
  unfolding visit_all
  visit_all-IsSearch current [] s t part seen h e =
      subst (IsSearch adjacency node current []) (ok-injective e) h
  visit_all-IsSearch current (c ∷ todo) s t part seen h e =
      let (u, e₁, k₁) = >>=-eq-ok (visit current c s) _ e in
      let (g, still) = visit-IsSearch current c todo s u (part c (inl refl)) seen h e₁ in
      visit_all-IsSearch current todo u t (λ d i. part d (inr i)) still g k₁

  -- The next node is taken from the queue.
  taken :
      (before current : Node) (ns rest : List Node) (s : Search)
      → cell_of adjacency current ≡ some ns
      → s.queue ≡ current ∷ rest
      → IsSearch adjacency node before [] s
      → IsSearch adjacency node current ns (record s { queue = rest })
  taken before current ns rest s list e h = record {
    begun = h.begun;
    ways = h.ways;
    queued = λ c i. h.queued c (subst (In c) (sym e) (inr i));
    cells = h.cells;
    reached = h.reached;
    home = h.home;
    blank = h.blank;
    closed = λ c seen. elim (h.closed c seen) [
      | inl i ↦ front c (subst (In c) e i)
      | inr all ↦ inr (λ d near. elim (all d near) [ inl k ↦ inl k | inr (_, i) ↦ elim i [ ] ])
    ];
  }
    where
      front :
          (c : Node)
          → In c (current ∷ rest)
          → In c rest
            ⊎ ((d : Node) → Edge adjacency c d → Seen s.visited d ⊎ ((c ≡ current) × In d ns))
      front c (inl same) = inr (λ d (others, there, i). inr (
        sym same,
        subst (In d) (some-injective _ _ (sym there ∙ ap (cell_of adjacency) (sym same) ∙ list)) i,
      ))
      front c (inr i) = inl i

  round-IsSearch :
      (go_on : Search → Result Search) (before : Node) (s t : Search) (q : List Node)
      → s.queue ≡ q
      → IsSearch adjacency node before [] s
      → next_round go_on adjacency s q ≡ ok t
      → ((last : Node) (u : Search)
          → IsSearch adjacency node last [] u
          → go_on u ≡ ok t
          → (end : Node) × IsSearch adjacency node end [] t × (t.queue ≡ []))
      → (last : Node) × IsSearch adjacency node last [] t × (t.queue ≡ [])
  round-IsSearch go_on before s t [] e h k later =
      subst (λ x. (last : Node) × IsSearch adjacency node last [] x × (x.queue ≡ []))
        (ok-injective k) (before, h, e)
  round-IsSearch go_on before s t (current ∷ rest) e h k later =
      let (ns, e₁, k₁) = >>=-eq-ok (neighbors_of adjacency current) _ k in
      let (u, e₂, k₂) = >>=-eq-ok (visit_all current ns (record s { queue = rest })) _ k₁ in
      let list = or_err-eq-ok _ _ e₁ in
      later current u
        (visit_all-IsSearch current ns (record s { queue = rest }) u (λ c i. (ns, list, i))
          (h.queued current (subst (In current) (sym e) (inl refl)))
          (taken before current ns rest s list e h) e₂)
        k₂

  -- At the end the queue is empty.
  pub search-IsSearch :
      (fuel : ℕ) (before : Node) (s t : Search)
      → IsSearch adjacency node before [] s
      → search fuel adjacency s ≡ ok t
      → (last : Node) × IsSearch adjacency node last [] t × (t.queue ≡ [])
  unfolding search
  search-IsSearch zero before s t h e = cc
  search-IsSearch (suc fuel) before s t h e =
      round-IsSearch (search fuel adjacency) before s t s.queue refl h e
        (λ last u g k. search-IsSearch fuel last u t g k)
