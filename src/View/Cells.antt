-- ===== src/View/Cells.antt =====
-- The player map of `UpdatePlayerStates`, cell by cell.
use codecharacter_simulator.Prelude.{
  ℕ, zero, suc, ◌+◌, ◌<◌, ◌≡◌, refl, sym, ap, ap₂, ◌∙◌, subst, ◌&&◌, ◌==◌, List, [], ◌∷◌, map,
  length, get_elem?, get_elem?-lt, get_cell?, modify_cell, get_cell?-modify_cell, Option, none,
  some, Result, ok, undefined, or_err, >>=-eq-ok, ok-injective, arith, Bool-cases, inl, inr, if_yes,
  if_no,
}
use mathlib.Core.Option
use mathlib.Core.Option.{some-injective}
use codecharacter_simulator.Players.{PlayerId}
use codecharacter_simulator.Physics.Double.{Double}
use codecharacter_simulator.Physics.Vector.{vdiv, floor}
use codecharacter_simulator.Actor.Tower.{Tower}
use codecharacter_simulator.Map.{GameMap, get_size, index_of}
use codecharacter_simulator.Syncer.PlayerState.{PlayerMapElement}
use codecharacter_simulator.Syncer.Commands.{as_seen}
use codecharacter_simulator.View.Flip.{PlayerMap, row_length}
use codecharacter_simulator.View.Turned.{IsSquare, modify_cell-IsSquare}
use codecharacter_simulator.View.Defs.{
  collect, copy_to, copy_rows, mark_valid, mark_taken, validate, mark_tower, mark_towers, new_cell,
  new_player_map,
}

pub collect-length {ℓ} :
    {A : Type ℓ} (n i : ℕ) (f : ℕ → Result A) (xs : List A) → collect n i f ≡ ok xs → length xs ≡ n
unfolding collect
collect-length zero i f xs e = ap length (sym (ok-injective e))
collect-length (suc n) i f xs e =
    let (x, e₁, k₁) = >>=-eq-ok (f i) _ e in
    let (rest, e₂, k₂) = >>=-eq-ok (collect n (suc i) f) _ k₁ in
    ap length (sym (ok-injective k₂)) ∙ ap suc (collect-length n (suc i) f rest e₂)

pub collect_elem {ℓ} :
    {A : Type ℓ} (n i k : ℕ) (f : ℕ → Result A) (xs : List A)
    → collect n i f ≡ ok xs
    → k < n
    → (x : A) × (f (i + k) ≡ ok x) × (get_elem? xs k ≡ some x)
unfolding collect
collect_elem zero i k f xs e h = let c : ⊥ = omega arith in elim c [ ]
collect_elem (suc n) i zero f xs e h =
    let (x, e₁, k₁) = >>=-eq-ok (f i) _ e in
    let (rest, e₂, k₂) = >>=-eq-ok (collect n (suc i) f) _ k₁ in
    (x, ap f (omega arith) ∙ e₁, ap (λ y. get_elem? y 0) (sym (ok-injective k₂)))
collect_elem (suc n) i (suc k) f xs e h =
    let (x, e₁, k₁) = >>=-eq-ok (f i) _ e in
    let (rest, e₂, k₂) = >>=-eq-ok (collect n (suc i) f) _ k₁ in
    let (y, here, there) = collect_elem n (suc i) k f rest e₂ (omega arith) in
    (y, ap f (omega arith) ∙ here, ap (λ z. get_elem? z (suc k)) (sym (ok-injective k₂)) ∙ there)

-- A cell is found in its row.
pub cell_of_row {ℓ} :
    {A : Type ℓ} (g : List (List A)) (i j : ℕ) (row : List A)
    → get_elem? g i ≡ some row
    → get_cell? g i j ≡ get_elem? row j
unfolding get_cell?
cell_of_row [] i j row e = cc
cell_of_row (r ∷ g) zero j row e = ap (λ x. get_elem? x j) (some-injective _ _ e)
cell_of_row (r ∷ g) (suc i) j row e = cell_of_row g i j row e

pub row_length_of :
    (g : PlayerMap) (i : ℕ) (row : List PlayerMapElement)
    → get_elem? g i ≡ some row
    → row_length g i ≡ length row
row_length_of [] i row e = cc
row_length_of (r ∷ g) zero row e = ap length (some-injective _ _ e)
row_length_of (r ∷ g) (suc i) row e = row_length_of g i row e

cell_inside :
    (g : PlayerMap) (i j : ℕ) (x : PlayerMapElement)
    → get_cell? g i j ≡ some x
    → (i < length g) × (j < row_length g i)
unfolding get_cell?
cell_inside [] i j x e = cc
cell_inside (r ∷ g) zero j x e = (omega arith, get_elem?-lt r j e)
cell_inside (r ∷ g) (suc i) j x e =
    let (lt, col) = cell_inside g i j x e in (omega (arith, lt), col)

pub cell_bounds :
    (n : ℕ) (g : PlayerMap) (i j : ℕ) (x : PlayerMapElement)
    → IsSquare n g
    → get_cell? g i j ≡ some x
    → (i < n) × (j < n)
cell_bounds n g i j x h e =
    let (lt, col) = cell_inside g i j x e in
    let i_lt = subst (λ k. i < k) h.rows lt in (i_lt, subst (λ k. j < k) (h.columns i i_lt) col)

-- What holds of every cell there is.
abbrev pub AllCells : (ℕ → ℕ → PlayerMapElement → Type 0) → PlayerMap → Type 0
AllCells Q g = (i j : ℕ) (x : PlayerMapElement) → get_cell? g i j ≡ some x → Q i j x

pub modify_cell-AllCells :
    (Q : ℕ → ℕ → PlayerMapElement → Type 0) (f : PlayerMapElement → PlayerMapElement)
    → ((i j : ℕ) (x : PlayerMapElement) → Q i j x → Q i j (f x))
    → (g : PlayerMap) (a b : ℕ) → AllCells Q g
    → AllCells Q (modify_cell g a b f)
modify_cell-AllCells Q f keep g a b h i j x e = elim (Bool-cases ((a == i) && (b == j))) [
  | inl here ↦
      through (get_cell? g i j) refl
        (sym (get_cell?-modify_cell g a b i j f ∙ if_yes _ _ _ here) ∙ e)
  | inr away ↦ h i j x (sym (get_cell?-modify_cell g a b i j f ∙ if_no _ _ _ away) ∙ e)
]
  where
    through :
        (o : Option PlayerMapElement)
        → get_cell? g i j ≡ o
        → Option.map f (get_cell? g i j) ≡ some x
        → Q i j x
    through none found k = absurd (nothing (sym (ap (Option.map f) found) ∙ k))
      where
        nothing : none ≡ some x → ⊥
        nothing q = cc
    through (some y) found k =
        subst (Q i j) (some-injective _ _ (sym (ap (Option.map f) found) ∙ k))
          (keep i j y (h i j y found))

validate_cell :
    (g : PlayerMap) (i j : ℕ) → get_cell? (validate g) i j ≡ Option.map mark_valid (get_cell? g i j)
unfolding get_cell?
validate_cell [] i j = refl
validate_cell (r ∷ g) zero j = in_row r j
  where
    in_row :
        (r : List PlayerMapElement) (j : ℕ)
        → get_elem? (map mark_valid r) j ≡ Option.map mark_valid (get_elem? r j)
    in_row [] j = refl
    in_row (x ∷ r) zero = refl
    in_row (x ∷ r) (suc j) = in_row r j
validate_cell (r ∷ g) (suc i) j = validate_cell g i j

pub map_some :
    (f : PlayerMapElement → PlayerMapElement) (o : Option PlayerMapElement) (x : PlayerMapElement)
    → Option.map f o ≡ some x
    → (y : PlayerMapElement) × (o ≡ some y) × (f y ≡ x)
map_some f none x e = cc
map_some f (some y) x e = (y, refl, some-injective _ _ e)

pub validate-AllCells :
    (Q R : ℕ → ℕ → PlayerMapElement → Type 0)
    → ((i j : ℕ) (x : PlayerMapElement) → Q i j x → R i j (mark_valid x))
    → (g : PlayerMap) → AllCells Q g
    → AllCells R (validate g)
validate-AllCells Q R step g h i j x e =
    let (y, there, same) =
      map_some mark_valid (get_cell? g i j) x (sym (validate_cell g i j) ∙ e) in
    subst (R i j) same (step i j y (h i j y there))

length-map : (r : List PlayerMapElement) → length (map mark_valid r) ≡ length r
length-map [] = refl
length-map (x ∷ r) = ap suc (length-map r)

pub validate-IsSquare : (n : ℕ) (g : PlayerMap) → IsSquare n g → IsSquare n (validate g)
validate-IsSquare n g h = record {
  rows = rows_kept g ∙ h.rows;
  columns = λ i lt. columns_kept g i ∙ h.columns i lt;
}
  where
    rows_kept : (g : PlayerMap) → length (validate g) ≡ length g
    rows_kept [] = refl
    rows_kept (r ∷ g) = ap suc (rows_kept g)

    columns_kept : (g : PlayerMap) (i : ℕ) → row_length (validate g) i ≡ row_length g i
    columns_kept [] i = refl
    columns_kept (r ∷ g) zero = length-map r
    columns_kept (r ∷ g) (suc i) = columns_kept g i

pub copy_to_lem {ℓ} :
    {A : Type ℓ} (xs v w : List A) → length xs ≡ length v → copy_to xs v ≡ ok w → xs ≡ w
unfolding copy_to
copy_to_lem [] [] w h e = ok-injective e
copy_to_lem [] (y ∷ v) w h e = let c : ⊥ = omega (arith, h) in elim c [ ]
copy_to_lem (x ∷ xs) [] w h e = cc
copy_to_lem (x ∷ xs) (y ∷ v) w h e =
    let (rest, e₁, k₁) = >>=-eq-ok (copy_to xs v) _ e in
    ap (λ z. x ∷ z) (copy_to_lem xs v rest (omega (arith, h)) e₁) ∙ ok-injective k₁

-- A copy onto a map of the same shape is the map.
pub copy_rows_lem :
    (g v w : PlayerMap)
    → length g ≡ length v
    → ((i : ℕ) → i < length g → row_length g i ≡ row_length v i)
    → copy_rows g v ≡ ok w
    → g ≡ w
unfolding copy_rows
copy_rows_lem [] [] w h rows e = ok-injective e
copy_rows_lem [] (y ∷ v) w h rows e = let c : ⊥ = omega (arith, h) in elim c [ ]
copy_rows_lem (r ∷ g) [] w h rows e = cc
copy_rows_lem (r ∷ g) (old ∷ v) w h rows e =
    let (new, e₁, k₁) = >>=-eq-ok (copy_to r old) _ e in
    let (rest, e₂, k₂) = >>=-eq-ok (copy_rows g v) _ k₁ in
    ap₂ (λ x y. x ∷ y) (copy_to_lem r old new (rows 0 (omega arith)) e₁)
      (copy_rows_lem g v rest (omega (arith, h)) (λ i lt. rows (suc i) (omega (arith, lt))) e₂)
    ∙ ok-injective k₂

module _ {D : Double} where
  pub mark_towers-AllCells :
      (Q : ℕ → ℕ → PlayerMapElement → Type 0)
      → ((i j : ℕ) (x : PlayerMapElement) → Q i j x → Q i j (mark_taken x))
      → (p : PlayerId) (m : GameMap D) (ts : List (Tower D)) (n : ℕ) (g g' : PlayerMap)
      → mark_towers p m ts g ≡ ok g'
      → IsSquare n g × AllCells Q g
      → IsSquare n g' × AllCells Q g'
  unfolding mark_towers mark_tower
  mark_towers-AllCells Q keep p m [] n g g' e h =
      subst (λ x. IsSquare n x × AllCells Q x) (ok-injective e) h
  mark_towers-AllCells Q keep p m (t ∷ ts) n g g' e h =
      let (marked, e₁, k₁) = >>=-eq-ok (mark_tower p m t g) _ e in
      let offset = floor D (vdiv D (as_seen p m t.position) (D.of_int m.element_size)) in
      let (i, e₂, k₂) = >>=-eq-ok (index_of (D.to_int offset.x)) _ e₁ in
      let (j, e₃, k₃) = >>=-eq-ok (index_of (D.to_int offset.y)) _ k₂ in
      let (x, e₄, k₄) = >>=-eq-ok (or_err (get_cell? g i j) undefined) _ k₃ in
      mark_towers-AllCells Q keep p m ts n marked g' k₁ (
        subst (λ y. IsSquare n y × AllCells Q y) (ok-injective k₄)
          (
            modify_cell-IsSquare n g i j mark_taken h.0,
            modify_cell-AllCells Q mark_taken keep g i j h.1,
          ))

  -- The new map is square, with a cell for each cell of the state's map.
  pub new_player_map_lem :
      (m : GameMap D) (g : PlayerMap)
      → new_player_map m ≡ ok g
      → IsSquare (get_size m) g × AllCells (λ i j x. new_cell m i j ≡ ok x) g
  unfolding new_player_map
  new_player_map_lem m g e = (square, cells)
    where
      square : IsSquare (get_size m) g
      square = record {
        rows = collect-length (get_size m) 0 _ g e;
        columns = λ i lt.
            let (row, made, there) = collect_elem (get_size m) 0 i _ g e lt in
            row_length_of g i row there
            ∙ collect-length (get_size m) 0 (new_cell m (0 + i)) row made;
      }

      cells : AllCells (λ i j x. new_cell m i j ≡ ok x) g
      cells i j x found =
          let (i_lt, j_lt) = cell_bounds (get_size m) g i j x square found in
          let (row, made, there) = collect_elem (get_size m) 0 i _ g e i_lt in
          let (y, made_y, there_y) =
            collect_elem (get_size m) 0 j (new_cell m (0 + i)) row made j_lt in
          subst (λ z. new_cell m i j ≡ ok z)
            (some-injective _ _ (sym there_y ∙ sym (cell_of_row g i j row there) ∙ found))
            (ap₂ (new_cell m) (omega arith) (omega arith) ∙ made_y)
