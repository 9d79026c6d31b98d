-- ===== src/Towers/Counts.antt =====
-- How many towers hold a cell, and when the bounds of a tower grow.
use codecharacter_simulator.Prelude.{
  ℕ, zero, suc, ◌+◌, ◌≡◌, refl, Bool, true, false, ◌&&◌, List, [], ◌∷◌, ◌++◌, ℤ, pos, ◌≤ℤ◌, some,
  get_elem?, set, erase_at, Result, ok, err, arith, leb_ℤ, in_loop_lem, ◌∙◌, sym,
}
use codecharacter_simulator.Physics.Double.{Double, IsMonotone}
use codecharacter_simulator.Physics.Vector.{Vector, floor, vdiv}
use codecharacter_simulator.Actor.Tower.{Tower, of_level}
use codecharacter_simulator.Towers.Defs.{TowerRules, Bounds, inside, bounds_of, calculate_bounds}
use codecharacter_simulator.Towers.Territory.{within}

abbrev pub one_if : Bool → ℕ
one_if true = 1
one_if false = 0

-- Whether bounds, if there are any, hold a cell.
abbrev pub holds : ℕ → ℕ → Result Bounds → Bool
holds i j (ok b) = inside b i j
holds i j (err e) = false

-- A tower's range does not shrink when its level rises.
abbrev pub IsRising : List ℤ → Type 0
IsRising ranges =
    (l : ℕ) (a b : ℤ) → of_level ranges l ≡ ok a → of_level ranges (suc l) ≡ ok b → a ≤ℤ b

module _ {D : Double} (r : TowerRules) (size : ℕ) (es : ℤ) where
  abbrev pub covers : Tower D → ℕ → ℕ → Bool
  covers t i j = holds i j (calculate_bounds r size es t)

  -- The towers whose bounds hold the cell `(i, j)`.
  unfoldable pub holders : List (Tower D) → ℕ → ℕ → ℕ
  holders [] i j = 0
  holders (t ∷ ts) i j = one_if (covers t i j) + holders ts i j

  pub holders-append :
      (ts : List (Tower D)) (t : Tower D) (i j : ℕ)
      → holders (ts ++ t ∷ []) i j ≡ one_if (covers t i j) + holders ts i j
  unfolding holders
  holders-append [] t i j = refl
  holders-append (x ∷ ts) t i j = omega (arith, holders-append ts t i j)

  pub holders-set :
      (ts : List (Tower D)) (k : ℕ) (t t' : Tower D) (i j : ℕ)
      → get_elem? ts k ≡ some t
      → holders (set ts k t') i j + one_if (covers t i j) ≡ one_if (covers t' i j) + holders ts i j
  unfolding holders
  holders-set [] k t t' i j e = cc
  holders-set (x ∷ ts) zero t t' i j e = ground arith
  holders-set (x ∷ ts) (suc k) t t' i j e = omega (arith, holders-set ts k t t' i j e)

  pub holders-erase :
      (ts : List (Tower D)) (k : ℕ) (t : Tower D) (i j : ℕ)
      → get_elem? ts k ≡ some t
      → one_if (covers t i j) + holders (erase_at ts k) i j ≡ holders ts i j
  unfolding holders
  holders-erase [] k t i j e = cc
  holders-erase (x ∷ ts) zero t i j e = ground arith
  holders-erase (x ∷ ts) (suc k) t i j e = omega (arith, holders-erase ts k t i j e)

module _ {D : Double} (r : TowerRules) (size : ℕ) (es : ℤ) where
  pub holders-set_erase :
      (ts : List (Tower D)) (k : ℕ) (t t' : Tower D) (i j : ℕ)
      → get_elem? ts k ≡ some t
      → holders r size es (set ts k t') i j
        ≡ one_if (covers r size es t' i j) + holders r size es (erase_at ts k) i j
  holders-set_erase ts k t t' i j e =
      omega (arith, holders-set r size es ts k t t' i j e, holders-erase r size es ts k t i j e)

and_regroup : (a b c d : Bool) → ((a && b) && (c && d)) ≡ (a && b && c && d)
and_regroup a b c d = ground arith

-- The loops come to the cells that the comparisons of an upgrade name.
inside-within :
    (b : Bounds) (i j : ℕ) → pos 0 ≤ℤ b.lower_x → pos 0 ≤ℤ b.lower_y → inside b i j ≡ within b i j
inside-within b i j hx hy =
    rw (in_loop_lem b.lower_x b.upper_x i hx, in_loop_lem b.lower_y b.upper_y j hy)
      (and_regroup (leb_ℤ b.lower_x (pos i)) (leb_ℤ (pos i) b.upper_x) (leb_ℤ b.lower_y (pos j))
        (leb_ℤ (pos j) b.upper_y))

-- The second bounds lie around the first.
record Surrounds (b c : Bounds) : Type 0 where
  left : c.lower_x ≤ℤ b.lower_x
  right : b.upper_x ≤ℤ c.upper_x
  below : c.lower_y ≤ℤ b.lower_y
  above : b.upper_y ≤ℤ c.upper_y

within_mono : (b c : Bounds) (i j : ℕ) → Surrounds b c → within b i j ≡ true → within c i j ≡ true
within_mono b c i j s h = ground arith

module _ {D : Double} (size es : ℤ) (v : Vector D) where
  bounds_of-low :
      (range : ℤ)
      → (pos 0 ≤ℤ (bounds_of size es v range).lower_x)
        × (pos 0 ≤ℤ (bounds_of size es v range).lower_y)
  unfolding bounds_of
  bounds_of-low range = ground arith

  pub inside-bounds_of :
      (range : ℤ) (i j : ℕ)
      → inside (bounds_of size es v range) i j ≡ within (bounds_of size es v range) i j
  inside-bounds_of range i j =
      let low = bounds_of-low range in inside-within (bounds_of size es v range) i j low.0 low.1

  bounds_of-Surrounds :
      (mono : IsMonotone D) (a b : ℤ)
      → a ≤ℤ b
      → Surrounds (bounds_of size es v a) (bounds_of size es v b)
  unfolding bounds_of
  bounds_of-Surrounds mono a b h =
      let o = floor D (vdiv D v (D.of_int es)) in
      ground (
        arith,
        mono.sub_mono o.x a b h,
        mono.add_mono o.x a b h,
        mono.sub_mono o.y a b h,
        mono.add_mono o.y a b h,
      )

  -- A larger range covers at least the same cells.
  pub inside_mono :
      (mono : IsMonotone D) (a b : ℤ) (i j : ℕ)
      → a ≤ℤ b
      → inside (bounds_of size es v a) i j ≡ true
      → inside (bounds_of size es v b) i j ≡ true
  inside_mono mono a b i j h c =
      inside-bounds_of b i j
      ∙ within_mono (bounds_of size es v a) (bounds_of size es v b) i j
          (bounds_of-Surrounds mono a b h) (sym (inside-bounds_of a i j) ∙ c)
