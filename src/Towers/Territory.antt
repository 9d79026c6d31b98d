-- ===== src/Towers/Territory.antt =====
-- The loops that claim and give back territory. A cell is the one that `GetElementByOffset` refers
-- to for the loop's `int`s (Map/Offsets.antt).
use codecharacter_simulator.Prelude.{
  ℕ, Bool, true, false, ◌&&◌, List, ℤ, pos, ◌+ℤ◌, ◌-ℤ◌, leb_ℤ, eqb_ℤ, Option, none, some, get_cell?,
  modify_cell, for_each, if◌then◌else◌,
}
use codecharacter_simulator.Players.{PlayerId}
use codecharacter_simulator.Physics.Double.{Double}
use codecharacter_simulator.Map.{GameMap, own_cell}
use codecharacter_simulator.Towers.Defs.{Bounds}

-- What the loops write: the reference counts and the map.
pub record Land (D : Double) : Type 0 where
  pub refs : List (List ℤ)
  pub map : GameMap D

-- `count == 0` at a cell.
abbrev pub is_zero : Option ℤ → Bool
is_zero none = false
is_zero (some n) = eqb_ℤ n (pos 0)

-- `i >= lower.x && i <= upper.x && j >= lower.y && j <= upper.y`.
abbrev pub within : Bounds → ℕ → ℕ → Bool
within b i j =
    leb_ℤ b.lower_x (pos i)
    && leb_ℤ (pos i) b.upper_x
    && leb_ℤ b.lower_y (pos j)
    && leb_ℤ (pos j) b.upper_y

module _ {D : Double} (p : PlayerId) where
  -- One more tower holds the cell. The bounds of a tower lie in the map, and `territory_refs` has its
  -- size, so that the indices are in range.
  unfoldable pub claim_cell : ℕ → ℕ → Land D → Land D
  claim_cell i j l = record {
    refs = modify_cell l.refs i j (λ n. n +ℤ pos 1);
    map = own_cell l.map i j p true;
  }

  -- The same, but not for a cell that was held before.
  unfoldable pub claim_new_cell : Bounds → ℕ → ℕ → Land D → Land D
  unfolding claim_cell
  claim_new_cell old i j l = if within old i j then l else claim_cell i j l

  -- One tower less holds the cell; with none left it is nobody's.
  unfoldable pub release_cell : ℕ → ℕ → Land D → Land D
  release_cell i j l =
      let refs = modify_cell l.refs i j (λ n. n -ℤ pos 1) in
      record {
        refs = refs;
        map = if is_zero (get_cell? refs i j) then own_cell l.map i j p false else l.map;
      }

  unfoldable pub claim : Bounds → Land D → Land D
  claim b = for_each b.lower_x b.upper_x (λ i. for_each b.lower_y b.upper_y (λ j. claim_cell i j))

  unfoldable pub claim_new : Bounds → Bounds → Land D → Land D
  claim_new old b =
      for_each b.lower_x b.upper_x (λ i. for_each b.lower_y b.upper_y (λ j. claim_new_cell old i j))

  unfoldable pub release : Bounds → Land D → Land D
  release b =
      for_each b.lower_x b.upper_x (λ i. for_each b.lower_y b.upper_y (λ j. release_cell i j))
