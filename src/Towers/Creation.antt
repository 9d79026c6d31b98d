-- ===== src/Towers/Creation.antt =====
-- The constructor of a tower manager establishes the territory invariant.
use codecharacter_simulator.Prelude.{
  ℕ, ◌+◌, ◌≡◌, refl, ◌∙◌, sym, ap, ap₂, subst, Bool, true, false, ◌&&◌, List, [], ◌∷◌, ℤ, pos,
  Option, none, some, ok, >>=-eq-ok, >>=-ok, ok-injective, get_cell?, get_cell?-replicate,
  replicate, ltb, if◌then◌else◌, arith,
}
use mathlib.Core.Bool.{false≢true}
use codecharacter_simulator.Players.{PlayerId, at}
use codecharacter_simulator.Physics.Double.{Double}
use codecharacter_simulator.Actor.Tower.{Tower, of_level}
use codecharacter_simulator.Money.{MoneyManager}
use codecharacter_simulator.Map.{GameMap, MapElement, get_size}
use codecharacter_simulator.Towers.Defs.{
  TowerRules, TowerManager, TowerScene, inside, bounds_of, calculate_bounds,
}
use codecharacter_simulator.Towers.Territory.{Land, claim}
use codecharacter_simulator.Towers.Cells.{cell, claim-SameShape, SameShape}
use codecharacter_simulator.Towers.Counts.{one_if, holds, holders}
use codecharacter_simulator.Towers.Invariant.{IsTerritory, Fits, FitsAt, claim-Fits}
use codecharacter_simulator.Towers.Handlers.{claim_all, new_manager}

module _ {D : Double} where
  -- A square map in which the player owns no cell.
  abbrev IsFreeAt : PlayerId → Option (MapElement D) → Bool → Type 0
  IsFreeAt p none b = b ≡ false
  IsFreeAt p (some e) b = (b ≡ true) × (at e.ownership p ≡ false)

  abbrev pub IsFree : PlayerId → GameMap D → Type 0
  IsFree p m =
      (i j : ℕ)
      → IsFreeAt p (get_cell? m.map_elements i j) (ltb i (get_size m) && ltb j (get_size m))

  -- The claims of a list of towers add up.
  claim_all-Fits :
      (r : TowerRules) (size : ℕ) (es : ℤ) (p : PlayerId) (ts : List (Tower D)) (l l' : Land D)
      (n : ℕ → ℕ → ℕ)
      → ((i j : ℕ) → Fits p (cell l i j) (n i j))
      → claim_all r size es p ts l ≡ ok l'
      → (i j : ℕ) → Fits p (cell l' i j) (holders r size es ts i j + n i j)
  unfolding claim_all holders
  claim_all-Fits r size es p [] l l' n h e i j =
      subst (λ x. Fits p (cell x i j) (0 + n i j)) (ok-injective e)
        (subst (Fits p (cell l i j)) (omega arith) (h i j))
  claim_all-Fits r size es p (t ∷ ts) l l' n h e i j =
      let (b, e₁, k₁) = >>=-eq-ok (calculate_bounds r size es t) _ e in
      subst (Fits p (cell l' i j)) (omega (arith, ap (λ c. one_if (holds i j c)) e₁)) (
        claim_all-Fits r size es p ts (claim p b l) l' (λ a c. one_if (inside b a c) + n a c)
          (λ a c. claim-Fits p b l a c (n a c) (h a c)) k₁ i j)

  claim_all-SameShape :
      (r : TowerRules) (size : ℕ) (es : ℤ) (p : PlayerId) (ts : List (Tower D)) (l l' : Land D)
      → claim_all r size es p ts l ≡ ok l'
      → SameShape l l'
  unfolding claim_all
  claim_all-SameShape r size es p [] l l' e = subst (SameShape l) (ok-injective e) (refl, refl)
  claim_all-SameShape r size es p (t ∷ ts) l l' e =
      let (b, e₁, k₁) = >>=-eq-ok (calculate_bounds r size es t) _ e in
      let (s, z) = claim_all-SameShape r size es p ts (claim p b l) l' k₁ in
      let (s', z') = claim-SameShape p b l in (s ∙ s', z ∙ z')

  -- With no towers and no references a free map fits.
  free-Fits :
      (p : PlayerId) (e : Option (MapElement D)) (b : Bool)
      → IsFreeAt p e b
      → FitsAt p (if b then some (pos 0) else none) e 0
  free-Fits p none true h = absurd (false≢true (sym h))
  free-Fits p none false h = tt
  free-Fits p (some e) true h = (refl, h.1 ∙ ground arith)
  free-Fits p (some e) false h = absurd (false≢true h.0)

  abbrev unclaimed : GameMap D → Land D
  unclaimed m = record { refs = replicate (get_size m) (replicate (get_size m) (pos 0)); map = m }

  abbrev RightTerritory : TowerRules → TowerManager D × GameMap D → Type 0
  RightTerritory r (m, g) =
      (i j : ℕ)
      → Fits m.player_id (cell (record { refs = m.territory_refs; map = g }) i j)
          (holders r (get_size g) g.element_size m.towers i j)

  -- If the constructor returns, called on a square map in which the player owns nothing, the territory
  -- of the manager is right on the map that it leaves.
  pub new_manager-IsTerritory :
      (r : TowerRules) (ts : List (Tower D)) (p : PlayerId) (m : GameMap D) (s : TowerScene D)
      → IsFree p m
      → new_manager r ts p m ≡ ok (s.manager, s.map)
      → IsTerritory r s
  unfolding new_manager
  new_manager-IsTerritory r ts p m s free e =
      let (l, e₁, k₁) =
        >>=-eq-ok (claim_all r (get_size m) m.element_size p ts (unclaimed m)) _ e in
      let (size, es) = claim_all-SameShape r (get_size m) m.element_size p ts (unclaimed m) l e₁ in
      subst (RightTerritory r) (ok-injective k₁) λ i j.
        subst (Fits p (cell l i j)) (omega (arith, ap₂ (λ x y. holders r x y ts i j) size es)) (
          claim_all-Fits r (get_size m) m.element_size p ts (unclaimed m) l (λ _ _. 0)
            (λ a b.
              subst (λ c. FitsAt p c (get_cell? m.map_elements a b) 0)
                (sym (get_cell?-replicate (get_size m) (get_size m) a b (pos 0)))
                (free-Fits p (get_cell? m.map_elements a b) _ (free a b)))
            e₁ i j)

  -- Every tower has a level for which there is a range.
  abbrev pub HaveRanges : TowerRules → List (Tower D) → Type 0
  HaveRanges r [] = Unit {0}
  HaveRanges r (t ∷ ts) =
      ((a : ℤ) × (of_level r.tower_ranges t.tower_level ≡ ok a)) × HaveRanges r ts

  claim_all_returns :
      (r : TowerRules) (size : ℕ) (es : ℤ) (p : PlayerId) (ts : List (Tower D)) (l : Land D)
      → HaveRanges r ts
      → (l' : Land D) × (claim_all r size es p ts l ≡ ok l')
  unfolding claim_all calculate_bounds
  claim_all_returns r size es p [] l h = (l, refl)
  claim_all_returns r size es p (t ∷ ts) l ((a, e), rest) =
      let b = bounds_of (pos size) es t.position a in
      let (l', run) = claim_all_returns r size es p ts (claim p b l) rest in
      (l', >>=-ok (calculate_bounds r size es t) _ b (>>=-ok _ _ a e refl) run)

  -- On a square map in which the player owns nothing, with towers whose levels have a range, the
  -- constructor returns a manager with these towers and a map on which its territory is right.
  pub new_manager_lem :
      (r : TowerRules) (ts : List (Tower D)) (p : PlayerId) (m : GameMap D) (money : MoneyManager)
      (next_id : ℤ)
      → IsFree p m
      → HaveRanges r ts
      → (n : TowerManager D) × (g : GameMap D) × (new_manager r ts p m ≡ ok (n, g))
        × (n.towers ≡ ts)
        × IsTerritory r (record { manager = n; money = money; map = g; next_id = next_id })
  unfolding new_manager
  new_manager_lem r ts p m money next_id free ranges =
      let (l, run) = claim_all_returns r (get_size m) m.element_size p ts (unclaimed m) ranges in
      let returns =
        >>=-ok (claim_all r (get_size m) m.element_size p ts (unclaimed m)) _ l run refl in
      (
        _,
        l.map,
        returns,
        refl,
        new_manager-IsTerritory r ts p m
            (record { manager = _; money = money; map = l.map; next_id = next_id }) free returns,
      )
