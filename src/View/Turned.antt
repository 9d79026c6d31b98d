-- ===== src/View/Turned.antt =====
-- `FlipMap` turns the map around: what it does to every cell.
use codecharacter_simulator.Prelude.{
  ℕ, zero, suc, ◌-◌, ◌<◌, ◌==◌, ◌&&◌, ◌≡◌, refl, sym, ap₂, ◌∙◌, subst, false, List, [], ◌∷◌, Option,
  none, some, length, get_elem?, get_cell?, modify, modify_cell, if◌then◌else◌,
  get_cell?-modify_cell, length-modify, arith, count_up_inv,
}
use mathlib.Core.Option
use codecharacter_simulator.Syncer.PlayerState.{PlayerMapElement}
use codecharacter_simulator.View.Flip.{
  PlayerMap, put_both, swap_territory, row_length, swap_cells, flip_pair, flip_row,
}

-- A map of `n` rows of `n` cells.
pub record IsSquare (n : ℕ) (g : PlayerMap) : Type 0 where
  pub rows : length g ≡ n
  pub columns : (i : ℕ) → i < n → row_length g i ≡ n

row_length-modify :
    (g : PlayerMap) (k i j : ℕ) (f : PlayerMapElement → PlayerMapElement)
    → row_length (modify g k (λ row. modify row j f)) i ≡ row_length g i
row_length-modify [] k i j f = refl
row_length-modify (r ∷ g) zero zero j f = length-modify r j f
row_length-modify (r ∷ g) zero (suc i) j f = refl
row_length-modify (r ∷ g) (suc k) zero j f = refl
row_length-modify (r ∷ g) (suc k) (suc i) j f = row_length-modify g k i j f

pub modify_cell-IsSquare :
    (n : ℕ) (g : PlayerMap) (i j : ℕ) (f : PlayerMapElement → PlayerMapElement)
    → IsSquare n g
    → IsSquare n (modify_cell g i j f)
unfolding modify_cell
modify_cell-IsSquare n g i j f h = record {
  rows = length-modify g i _ ∙ h.rows;
  columns = λ k lt. row_length-modify g i k j f ∙ h.columns k lt;
}

row_cell :
    (r : List PlayerMapElement) (j : ℕ)
    → j < length r
    → (x : PlayerMapElement) × (get_elem? r j ≡ some x)
row_cell [] j h = let c : ⊥ = omega arith in elim c [ ]
row_cell (x ∷ r) zero h = (x, refl)
row_cell (x ∷ r) (suc j) h = row_cell r j (omega arith)

cell_there :
    (g : PlayerMap) (i j : ℕ)
    → i < length g
    → j < row_length g i
    → (x : PlayerMapElement) × (get_cell? g i j ≡ some x)
unfolding get_cell?
cell_there [] i j h k = let c : ⊥ = omega arith in elim c [ ]
cell_there (r ∷ g) zero j h k = row_cell r j k
cell_there (r ∷ g) (suc i) j h k = cell_there g i j (omega arith) k

swap_cells-IsSquare :
    (n : ℕ) (g : PlayerMap) (i j a b : ℕ) → IsSquare n g → IsSquare n (swap_cells g i j a b)
unfolding swap_cells
swap_cells-IsSquare n g i j a b h = by_found (get_cell? g i j) (get_cell? g a b)
  where
    by_found : (o o' : Option PlayerMapElement) → IsSquare n (put_both g i j a b o o')
    by_found (some x) (some y) = modify_cell-IsSquare n _ a b _ (modify_cell-IsSquare n g i j _ h)
    by_found none (some y) = h
    by_found (some x) none = h
    by_found none none = h

pub flip_pair-IsSquare : (n i j : ℕ) (g : PlayerMap) → IsSquare n g → IsSquare n (flip_pair n i j g)
unfolding flip_pair
flip_pair-IsSquare n i j g h =
    swap_cells-IsSquare n _ i j _ _
      (modify_cell-IsSquare n _ _ _ _ (modify_cell-IsSquare n g i j _ h))

pub flip_row-IsSquare : (n i : ℕ) (g : PlayerMap) → IsSquare n g → IsSquare n (flip_row n i g)
unfolding flip_row
flip_row-IsSquare n i g h =
    count_up_inv (IsSquare n) (row_length g i) 0 (flip_pair n i) g (flip_pair-IsSquare n i) h

-- The three swaps on two different cells that are there.
swapped :
    (g : PlayerMap) (i j i' j' a b : ℕ) (x y : PlayerMapElement)
    → get_cell? g i j ≡ some x
    → get_cell? g i' j' ≡ some y
    → ((i == i') && (j == j')) ≡ false
    → get_cell?
        (swap_cells (modify_cell (modify_cell g i j swap_territory) i' j' swap_territory) i j i' j')
        a
        b
      ≡ (if (i' == a) && (j' == b)
          then some (swap_territory x)
          else if (i == a) && (j == b)
          then some (swap_territory y)
          else get_cell? g a b)
unfolding swap_cells
swapped g i j i' j' a b x y hx hy away =
    let t = modify_cell g i j swap_territory in
    let u = modify_cell t i' j' swap_territory in
    let ux : get_cell? u i j ≡ some (swap_territory x) =
      get_cell?-modify_cell t i' j' i j swap_territory
      ∙ ground (arith, get_cell?-modify_cell g i j i j swap_territory) in
    let uy : get_cell? u i' j' ≡ some (swap_territory y) =
      get_cell?-modify_cell t i' j' i' j' swap_territory
      ∙ ground (arith, get_cell?-modify_cell g i j i' j' swap_territory) in
    ap₂ (λ o o'. get_cell? (put_both u i j i' j' o o') a b) ux uy
    ∙ get_cell?-modify_cell (modify_cell u i j (λ _. swap_territory y)) i' j' a b
        (λ _. swap_territory x)
    ∙ ground (
      arith,
      get_cell?-modify_cell u i j a b (λ _. swap_territory y),
      get_cell?-modify_cell t i' j' a b swap_territory,
      get_cell?-modify_cell g i j a b swap_territory,
    )

-- A cell and the one on the other side of the middle.
abbrev pub Pair : Type 0
Pair = Option PlayerMapElement × Option PlayerMapElement

abbrev pub exchange : Pair → Pair
exchange (o, o') = (Option.map swap_territory o', Option.map swap_territory o)

module _ (n : ℕ) where
  abbrev pub pair_at : ℕ → ℕ → PlayerMap → Pair
  pair_at i j g = (get_cell? g i j, get_cell? g (n - 1 - i) (n - 1 - j))

  flip_pair_lem :
      (g : PlayerMap) (i j a b : ℕ)
      → IsSquare n g
      → i < n
      → j < n
      → ((i == (n - 1 - i)) && (j == (n - 1 - j))) ≡ false
      → get_cell? (flip_pair n i j g) a b ≡ (
          if ((n - 1 - i) == a) && ((n - 1 - j) == b)
          then Option.map swap_territory (get_cell? g i j)
          else if (i == a) && (j == b)
          then Option.map swap_territory (get_cell? g (n - 1 - i) (n - 1 - j))
          else get_cell? g a b)
  unfolding flip_pair
  flip_pair_lem g i j a b h hi hj away =
      let (x, hx) =
        cell_there g i j (subst (λ k. i < k) (sym h.rows) hi)
          (subst (λ k. j < k) (sym (h.columns i hi)) hj) in
      let (y, hy) =
        cell_there g (n - 1 - i) (n - 1 - j) (subst (λ k. n - 1 - i < k) (sym h.rows) (omega arith))
          (subst (λ k. n - 1 - j < k) (sym (h.columns (n - 1 - i) (omega arith))) (omega arith)) in
      swapped g i j (n - 1 - i) (n - 1 - j) a b x y hx hy away ∙ rw (hx, hy) refl

  pub pair_hit :
      (g : PlayerMap) (i j : ℕ)
      → IsSquare n g
      → i < n
      → j < n
      → ((i == (n - 1 - i)) && (j == (n - 1 - j))) ≡ false
      → pair_at i j (flip_pair n i j g) ≡ exchange (pair_at i j g)
  pair_hit g i j h hi hj away =
      ap₂ (λ o o'. (o, o')) (flip_pair_lem g i j i j h hi hj away ∙ ground arith)
        (flip_pair_lem g i j (n - 1 - i) (n - 1 - j) h hi hj away ∙ ground arith)

  pub pair_missed :
      (g : PlayerMap) (i j a b : ℕ)
      → IsSquare n g
      → i < n
      → j < n
      → a < n
      → b < n
      → ((i == (n - 1 - i)) && (j == (n - 1 - j))) ≡ false
      → ((i == a) && (j == b)) ≡ false
      → ((i == (n - 1 - a)) && (j == (n - 1 - b))) ≡ false
      → pair_at a b (flip_pair n i j g) ≡ pair_at a b g
  pair_missed g i j a b h hi hj ha hb away here there =
      ap₂ (λ o o'. (o, o')) (flip_pair_lem g i j a b h hi hj away ∙ ground arith)
        (flip_pair_lem g i j (n - 1 - a) (n - 1 - b) h hi hj away ∙ ground arith)
