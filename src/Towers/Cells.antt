-- ===== src/Towers/Cells.antt =====
-- What the territory loops do to each cell.
use codecharacter_simulator.Prelude.{
  ℕ, ◌≡◌, refl, Bool, true, false, ℤ, pos, ◌+ℤ◌, ◌-ℤ◌, Option, get_cell?, modify_cell,
  get_cell?-modify_cell, for_each_cell, IsLocal, count_up_inv, for_each, length-modify,
  if◌then◌else◌, arith,
}
use mathlib.Core.Option
use codecharacter_simulator.Players.{PlayerId}
use codecharacter_simulator.Physics.Double.{Double}
use codecharacter_simulator.Map.{GameMap, MapElement, own_cell, set_ownership, get_size}
use codecharacter_simulator.Towers.Defs.{Bounds, inside}
use codecharacter_simulator.Towers.Territory.{
  Land, claim_cell, claim_new_cell, release_cell, claim, claim_new, release, within, is_zero,
}

-- The reference count and the map element of a cell.
pub record Cell (D : Double) : Type 0 where
  pub count : Option ℤ
  pub element : Option (MapElement D)

module _ {D : Double} where
  abbrev pub cell : Land D → ℕ → ℕ → Cell D
  cell l a b = record { count = get_cell? l.refs a b; element = get_cell? l.map.map_elements a b }

  abbrev pub claimed : PlayerId → Cell D → Cell D
  claimed p c = record {
    count = Option.map (λ n. n +ℤ pos 1) c.count;
    element = Option.map (set_ownership p true) c.element;
  }

  abbrev pub released : PlayerId → Cell D → Cell D
  released p c =
      let left = Option.map (λ n. n -ℤ pos 1) c.count in
      record {
        count = left;
        element = if is_zero left then Option.map (set_ownership p false) c.element else c.element;
      }

  claim_cell-IsLocal : (p : PlayerId) → IsLocal cell (claim_cell p) (λ a b. claimed p)
  unfolding claim_cell own_cell
  claim_cell-IsLocal p i j a b l = ground (
    arith,
    get_cell?-modify_cell l.refs i j a b (λ n. n +ℤ pos 1),
    get_cell?-modify_cell l.map.map_elements i j a b (set_ownership p true),
  )

  -- Claiming bounds counts each cell within them once more and gives it to the player; every
  -- other cell stays as it was.
  pub cell-claim :
      (p : PlayerId) (b : Bounds) (l : Land D) (i j : ℕ)
      → cell (claim p b l) i j ≡ (if inside b i j then claimed p (cell l i j) else cell l i j)
  unfolding claim
  cell-claim p b l i j =
      for_each_cell cell (claim_cell p) (λ _ _. claimed p) (claim_cell-IsLocal p) b.lower_x
        b.upper_x b.lower_y b.upper_y i j l

  claim_new_cell-IsLocal :
      (p : PlayerId) (old : Bounds)
      → IsLocal cell (claim_new_cell p old) (λ a b c. if within old a b then c else claimed p c)
  unfolding claim_new_cell
  claim_new_cell-IsLocal p old i j a b l = ground (arith, claim_cell-IsLocal p i j a b l)

  release_cell-IsLocal : (p : PlayerId) → IsLocal cell (release_cell p) (λ a b. released p)
  unfolding release_cell own_cell
  release_cell-IsLocal p i j a b l = ground (
    arith,
    get_cell?-modify_cell l.refs i j a b (λ n. n -ℤ pos 1),
    get_cell?-modify_cell l.refs i j i j (λ n. n -ℤ pos 1),
    get_cell?-modify_cell l.map.map_elements i j a b (set_ownership p false),
  )

  -- Claiming new bounds leaves the cells of the old ones as they were, claims the other cells
  -- within the new ones, and touches no cell outside.
  pub cell-claim_new :
      (p : PlayerId) (old b : Bounds) (l : Land D) (i j : ℕ)
      → cell (claim_new p old b l) i j ≡ (
          if inside b i j
          then (if within old i j then cell l i j else claimed p (cell l i j))
          else cell l i j)
  unfolding claim_new
  cell-claim_new p old b l i j =
      for_each_cell cell (claim_new_cell p old) (λ a b c. if within old a b then c else claimed p c)
        (claim_new_cell-IsLocal p old) b.lower_x b.upper_x b.lower_y b.upper_y i j l

  -- Releasing bounds counts each cell within them once less and takes it from the player where
  -- the count is then zero; every other cell stays as it was.
  pub cell-release :
      (p : PlayerId) (b : Bounds) (l : Land D) (i j : ℕ)
      → cell (release p b l) i j ≡ (if inside b i j then released p (cell l i j) else cell l i j)
  unfolding release
  cell-release p b l i j =
      for_each_cell cell (release_cell p) (λ _ _. released p) (release_cell-IsLocal p) b.lower_x
        b.upper_x b.lower_y b.upper_y i j l

  -- The map keeps its shape.
  abbrev pub SameShape : Land D → Land D → Type 0
  SameShape l l' = (get_size l'.map ≡ get_size l.map) × (l'.map.element_size ≡ l.map.element_size)

  own_cell-SameShape :
      (m : GameMap D) (i j : ℕ) (p : PlayerId) (b : Bool)
      → (get_size (own_cell m i j p b) ≡ get_size m)
        × ((own_cell m i j p b).element_size ≡ m.element_size)
  unfolding own_cell modify_cell
  own_cell-SameShape m i j p b = (length-modify m.map_elements i _, refl)

  claim_cell-SameShape :
      (p : PlayerId) (l : Land D) (i j : ℕ) (t : Land D)
      → SameShape l t
      → SameShape l (claim_cell p i j t)
  unfolding claim_cell
  claim_cell-SameShape p l i j t h = ground (arith, own_cell-SameShape t.map i j p true)

  claim_new_cell-SameShape :
      (p : PlayerId) (old : Bounds) (l : Land D) (i j : ℕ) (t : Land D)
      → SameShape l t
      → SameShape l (claim_new_cell p old i j t)
  unfolding claim_new_cell
  claim_new_cell-SameShape p old l i j t h = ground (arith, own_cell-SameShape t.map i j p true)

  release_cell-SameShape :
      (p : PlayerId) (l : Land D) (i j : ℕ) (t : Land D)
      → SameShape l t
      → SameShape l (release_cell p i j t)
  unfolding release_cell
  release_cell-SameShape p l i j t h = ground (arith, own_cell-SameShape t.map i j p false)

  loops-SameShape :
      (l : Land D) (body : ℕ → ℕ → Land D → Land D) (b : Bounds)
      → ((i j : ℕ) (t : Land D) → SameShape l t → SameShape l (body i j t))
      → SameShape l (for_each b.lower_x b.upper_x (λ i. for_each b.lower_y b.upper_y (body i)) l)
  loops-SameShape l body b keep =
      count_up_inv (SameShape l) _ _ _ l (λ i t. count_up_inv (SameShape l) _ _ _ t (λ j. keep i j))
        (refl, refl)

  pub claim-SameShape : (p : PlayerId) (b : Bounds) (l : Land D) → SameShape l (claim p b l)
  unfolding claim
  claim-SameShape p b l = loops-SameShape l (claim_cell p) b (claim_cell-SameShape p l)

  pub claim_new-SameShape :
      (p : PlayerId) (old b : Bounds) (l : Land D) → SameShape l (claim_new p old b l)
  unfolding claim_new
  claim_new-SameShape p old b l =
      loops-SameShape l (claim_new_cell p old) b (claim_new_cell-SameShape p old l)

  pub release-SameShape : (p : PlayerId) (b : Bounds) (l : Land D) → SameShape l (release p b l)
  unfolding release
  release-SameShape p b l = loops-SameShape l (release_cell p) b (release_cell-SameShape p l)
