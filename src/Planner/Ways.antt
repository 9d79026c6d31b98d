-- ===== src/Planner/Ways.antt =====
-- What a search finds: ways to its node.
use codecharacter_simulator.Prelude.{
  ℕ, zero, suc, ◌==◌, ◌&&◌, ◌≡◌, refl, sym, ap, ap₂, ◌∙◌, Bool, true, false, List, [], ◌∷◌, ◌++◌,
  Option, none, some, get_cell?, get_cell?-modify_cell, modify_cell, if_yes, if_no, Bool-cases, inl,
  inr, ◌⊎◌, arith,
}
use mathlib.Core.Option
use mathlib.Core.Option.{some-injective}
use codecharacter_simulator.Planner.Defs.{Node, Matrix, Search}

abbrev pub In : Node → List Node → Type 0
In c [] = ⊥
In c (x ∷ xs) = (x ≡ c) ⊎ In c xs

pub In-push : (c : Node) (xs : List Node) (d : Node) → In c (xs ++ (d ∷ [])) → In c xs ⊎ (d ≡ c)
In-push c [] d (inl e) = inr e
In-push c [] d (inr i) = elim i [ ]
In-push c (x ∷ xs) d (inl e) = inl (inl e)
In-push c (x ∷ xs) d (inr i) = elim (In-push c xs d i) [ inl j ↦ inl (inr j) | inr e ↦ inr e ]

pub push-In : (c : Node) (xs : List Node) (d : Node) → In c xs → In c (xs ++ (d ∷ []))
push-In c [] d i = elim i [ ]
push-In c (x ∷ xs) d (inl e) = inl e
push-In c (x ∷ xs) d (inr i) = inr (push-In c xs d i)

pub pushed-In : (xs : List Node) (d : Node) → In d (xs ++ (d ∷ []))
pushed-In [] d = inl refl
pushed-In (x ∷ xs) d = inr (pushed-In xs d)

abbrev pub cell_of {ℓ} : {A : Type ℓ} → Matrix A → Node → Option A
cell_of m c = get_cell? m c.0 c.1

abbrev pub same_node : Node → Node → Bool
same_node c d = (c.0 == d.0) && (c.1 == d.1)

pub same_node-eq : (c d : Node) → same_node c d ≡ true → c ≡ d
same_node-eq c d h =
    let a : c.0 ≡ d.0 = ground arith in let b : c.1 ≡ d.1 = ground arith in ap₂ (λ x y. (x, y)) a b

-- A node has been visited.
abbrev pub Seen : Matrix Bool → Node → Type 0
Seen v c = cell_of v c ≡ some true

abbrev pub mark : Matrix Bool → Node → Matrix Bool
mark v c = modify_cell v c.0 c.1 (λ _. true)

pub Seen-mark : (v : Matrix Bool) (c d : Node) → Seen v d → Seen (mark v c) d
Seen-mark v c d h = elim (Bool-cases (same_node c d)) [
  | inl e ↦
      get_cell?-modify_cell v c.0 c.1 d.0 d.1 (λ _. true)
      ∙ if_yes _ _ _ e
      ∙ ap (Option.map (λ _. true)) h
  | inr e ↦ get_cell?-modify_cell v c.0 c.1 d.0 d.1 (λ _. true) ∙ if_no _ _ _ e ∙ h
]

pub marked-Seen : (v : Matrix Bool) (c : Node) → cell_of v c ≡ some false → Seen (mark v c) c
marked-Seen v c h =
    get_cell?-modify_cell v c.0 c.1 c.0 c.1 (λ _. true)
    ∙ if_yes (same_node c c) _ _ (ground arith)
    ∙ ap (Option.map (λ _. true)) h

pub mark-Seen : (v : Matrix Bool) (c d : Node) → Seen (mark v c) d → (c ≡ d) ⊎ Seen v d
mark-Seen v c d h = elim (Bool-cases (same_node c d)) [
  | inl e ↦ inl (same_node-eq c d e)
  | inr e ↦ inr (sym (get_cell?-modify_cell v c.0 c.1 d.0 d.1 (λ _. true) ∙ if_no _ _ _ e) ∙ h)
]

pub mark-none : (v : Matrix Bool) (c d : Node) → cell_of v d ≡ none → cell_of (mark v c) d ≡ none
mark-none v c d h = elim (Bool-cases (same_node c d)) [
  | inl e ↦
      get_cell?-modify_cell v c.0 c.1 d.0 d.1 (λ _. true)
      ∙ if_yes _ _ _ e
      ∙ ap (Option.map (λ _. true)) h
  | inr e ↦ get_cell?-modify_cell v c.0 c.1 d.0 d.1 (λ _. true) ∙ if_no _ _ _ e ∙ h
]

-- A visited node is another than one that has not been.
pub apart :
    (v : Matrix Bool) (c d : Node) → cell_of v c ≡ some false → Seen v d → same_node c d ≡ false
apart v c d h k = elim (Bool-cases (same_node c d)) [
  | inl e ↦ absurd (clash (sym h ∙ ap (cell_of v) (same_node-eq c d e) ∙ k))
  | inr e ↦ e
]
  where
    clash : some false ≡ some true → ⊥
    clash q = cc

-- A cell that is there still is.
pub mark_there :
    (v : Matrix Bool) (c d : Node) (b : Bool)
    → cell_of v d ≡ some b
    → (b' : Bool) × (cell_of (mark v c) d ≡ some b')
mark_there v c d b h = elim (Bool-cases (same_node c d)) [
  | inl e ↦ (
    true,
    get_cell?-modify_cell v c.0 c.1 d.0 d.1 (λ _. true)
        ∙ if_yes _ _ _ e
        ∙ ap (Option.map (λ _. true)) h,
  )
  | inr e ↦ (b, get_cell?-modify_cell v c.0 c.1 d.0 d.1 (λ _. true) ∙ if_no _ _ _ e ∙ h)
]

-- The second node is in the list of the first.
abbrev pub Edge : Matrix (List Node) → Node → Node → Type 0
Edge adjacency c d = (ns : List Node) × (cell_of adjacency c ≡ some ns) × In d ns

-- The nodes that can be reached from `node` along the lists.
pub data Reaches : Matrix (List Node) → Node → Node → Type 0 where
  here : {adjacency : Matrix (List Node)} {node : Node} → Reaches adjacency node node
  step :
      {adjacency : Matrix (List Node)} {node c d : Node}
      → Reaches adjacency node c
      → Edge adjacency c d
      → Reaches adjacency node d

module _ (adjacency : Matrix (List Node)) (node : Node) where
  -- From `c`, `k` steps of the matrix `next` lead to the node, each from a neighbor to the node whose
  -- neighbor it is, and over visited nodes.
  abbrev pub Way : Matrix Bool → Matrix Node → ℕ → Node → Type 0
  Way v next zero c = c ≡ node
  Way v next (suc k) c =
      (d : Node) × (cell_of next c ≡ some d) × Edge adjacency d c × Seen v d × Way v next k d

  pub Way-mark :
      (v : Matrix Bool) (next : Matrix Node) (c current : Node) (k : ℕ) (e : Node)
      → cell_of v c ≡ some false
      → Seen v e
      → Way v next k e
      → Way (mark v c) (modify_cell next c.0 c.1 (λ _. current)) k e
  Way-mark v next c current zero e fresh seen w = w
  Way-mark v next c current (suc k) e fresh seen (d, at_e, neighbor, seen_d, w) = (
    d,
    get_cell?-modify_cell next c.0 c.1 e.0 e.1 (λ _. current)
        ∙ if_no _ _ _ (apart v c e fresh seen)
        ∙ at_e,
    neighbor,
    Seen-mark v c d seen_d,
    Way-mark v next c current k d fresh seen_d w,
  )

  -- The invariant while the neighbors `todo` of a node are still to be visited: every visited node has
  -- a way, and is queued or has only visited neighbors, less those.
  pub record IsSearch (current : Node) (todo : List Node) (s : Search) : Type 0 where
    pub begun : Seen s.visited node
    pub ways : (c : Node) → Seen s.visited c → (k : ℕ) × Way s.visited s.next k c
    pub queued : (c : Node) → In c s.queue → Seen s.visited c
    pub closed :
        (c : Node)
        → Seen s.visited c
        → In c s.queue
          ⊎ ((d : Node) → Edge adjacency c d → Seen s.visited d ⊎ ((c ≡ current) × In d todo))
    pub cells :
        (c : Node) (b : Bool)
        → cell_of s.visited c ≡ some b
        → (d : Node) × (cell_of s.next c ≡ some d)
    pub reached : (c : Node) → Seen s.visited c → Reaches adjacency node c
    pub home : cell_of s.next node ≡ some node
    pub blank : (c : Node) → cell_of s.visited c ≡ some false → cell_of s.next c ≡ some (0, 0)
