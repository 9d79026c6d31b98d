-- ===== src/Prelude/Grids.antt =====
-- Square tables of cells, rows first, as `std::vector<std::vector<T>>`.
use Prim.Native.Nat.{ℕ, zero, suc}
use mathlib.Core.Path.{◌≡◌, refl, ap, ◌∙◌}
use mathlib.Core.Bool.{◌&&◌}
use mathlib.Core.List.{List, [], ◌∷◌}
use mathlib.Core.Option
use mathlib.Core.Option.{Option, none, some}
use native.Mathlib.Omega.{arith}
use codecharacter_simulator.Prelude.Tests.{ltb, ◌==◌, if◌then◌else◌}
use codecharacter_simulator.Prelude.Lists.{get_elem?, length, replicate}

module _ {ℓ} {A : Type ℓ} where
  -- `v[i] = f(v[i])`; out of bounds nothing is written.
  abbrev pub modify : List A → ℕ → (A → A) → List A
  modify [] i f = []
  modify (x ∷ xs) zero f = f x ∷ xs
  modify (x ∷ xs) (suc i) f = x ∷ modify xs i f

  pub length-modify : (xs : List A) (i : ℕ) (f : A → A) → length (modify xs i f) ≡ length xs
  length-modify [] i f = refl
  length-modify (x ∷ xs) zero f = refl
  length-modify (x ∷ xs) (suc i) f = ap suc (length-modify xs i f)

  pub get_elem?-modify :
      (xs : List A) (i j : ℕ) (f : A → A)
      → get_elem? (modify xs i f) j
        ≡ (if i == j then Option.map f (get_elem? xs j) else get_elem? xs j)
  get_elem?-modify [] i j f = ground arith
  get_elem?-modify (x ∷ xs) zero zero f = refl
  get_elem?-modify (x ∷ xs) zero (suc j) f = ground arith
  get_elem?-modify (x ∷ xs) (suc i) zero f = ground arith
  get_elem?-modify (x ∷ xs) (suc i) (suc j) f = ground (arith, get_elem?-modify xs i j f)

module _ {ℓ} {A : Type ℓ} where
  -- The cell in row `i` and column `j`.
  unfoldable pub get_cell? : List (List A) → ℕ → ℕ → Option A
  get_cell? [] i j = none
  get_cell? (row ∷ g) zero j = get_elem? row j
  get_cell? (row ∷ g) (suc i) j = get_cell? g i j

  -- `g[i][j] = f(g[i][j])`.
  unfoldable pub modify_cell : List (List A) → ℕ → ℕ → (A → A) → List (List A)
  modify_cell g i j f = modify g i (λ row. modify row j f)

  pub get_cell?-modify_cell :
      (g : List (List A)) (i j a b : ℕ) (f : A → A)
      → get_cell? (modify_cell g i j f) a b
        ≡ (if (i == a) && (j == b) then Option.map f (get_cell? g a b) else get_cell? g a b)
  unfolding get_cell? modify_cell
  get_cell?-modify_cell [] i j a b f = ground arith
  get_cell?-modify_cell (r ∷ g) zero j zero b f = get_elem?-modify r j b f
  get_cell?-modify_cell (r ∷ g) zero j (suc a) b f = ground arith
  get_cell?-modify_cell (r ∷ g) (suc i) j zero b f = ground arith
  get_cell?-modify_cell (r ∷ g) (suc i) j (suc a) b f =
      ground (arith, get_cell?-modify_cell g i j a b f)

  get_elem?-replicate :
      (n i : ℕ) (a : A) → get_elem? (replicate n a) i ≡ (if ltb i n then some a else none)
  get_elem?-replicate zero i a = ground arith
  get_elem?-replicate (suc n) zero a = ground arith
  get_elem?-replicate (suc n) (suc i) a = get_elem?-replicate n i a ∙ ground arith

  pub get_cell?-replicate :
      (n m i j : ℕ) (a : A)
      → get_cell? (replicate n (replicate m a)) i j ≡ (if ltb i n && ltb j m then some a else none)
  unfolding get_cell?
  get_cell?-replicate zero m i j a = ground arith
  get_cell?-replicate (suc n) m zero j a = get_elem?-replicate m j a ∙ ground arith
  get_cell?-replicate (suc n) m (suc i) j a = get_cell?-replicate n m i j a ∙ ground arith
