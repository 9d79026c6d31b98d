-- ===== src/View/Territory.antt =====
-- What `UpdatePlayerStates` shows a player of the map.
use codecharacter_simulator.Prelude.{
  ℕ, ◌-◌, ◌%◌, ◌<◌, ◌≤◌, ◌≡◌, refl, sym, ap, ap₂, ◌∙◌, subst, true, false, pos, ◌-ℤ◌, ok, >>=-eq-ok,
  ok-injective, arith, int_laws, inl,
}
use codecharacter_simulator.Players.{PlayerId, player1, player2, PerPlayer, at, enemy}
use codecharacter_simulator.Physics.Double.{Double, IsExact, IsInt}
use codecharacter_simulator.Physics.Vector.{Vector, of_ints}
use codecharacter_simulator.Map.{GameMap, MapElement, get_size, get_element_by_offset}
use codecharacter_simulator.Game.Defs.{State}
use codecharacter_simulator.Syncer.PlayerState.{PlayerMapElement, PlayerState}
use codecharacter_simulator.Syncer.Commands.{offset_as_seen}
use codecharacter_simulator.View.Flip.{PlayerMap, swap_territory, flip_map}
use codecharacter_simulator.View.Turned.{IsSquare}
use codecharacter_simulator.View.Around.{flip_map_lem, flip_map-IsSquare}
use codecharacter_simulator.View.Actors.{assign_tower_attributes, assign_soldier_attributes}
use codecharacter_simulator.View.Defs.{
  mark_valid, mark_taken, validate, mark_towers, copy_rows, new_cell, new_player_map,
  update_player_state, update_player_states,
}
use codecharacter_simulator.View.Cells.{
  AllCells, cell_bounds, map_some, validate-AllCells, validate-IsSquare, mark_towers-AllCells,
  copy_rows_lem, new_player_map_lem,
}

module _ {D : Double} where
  -- The cell shows who owns the element at an offset of the state's map.
  pub record ShowsOwners (m : GameMap D) (p : PlayerId) (v : Vector D) (x : PlayerMapElement)
      : Type 0 where
    pub element : MapElement D
    pub there : get_element_by_offset m v ≡ ok element
    pub own : x.territory ≡ at element.ownership p
    pub other : x.enemy_territory ≡ at element.ownership (enemy p)
    pub no_wish : x.build_tower ≡ false

  -- A cell is shown as valid only if the player owns it alone.
  pub record ShowsCell (m : GameMap D) (p : PlayerId) (i j : ℕ) (x : PlayerMapElement)
      : Type 0 where
    pub owners : ShowsOwners m p (offset_as_seen p m (of_ints D (pos i) (pos j))) x
    pub valid_own : x.valid_territory ≡ true → x.territory ≡ true
    pub valid_free : x.valid_territory ≡ true → x.enemy_territory ≡ false

  marked_valid :
      (m : GameMap D) (p : PlayerId) (i j : ℕ) (x : PlayerMapElement)
      → ShowsOwners m p (offset_as_seen p m (of_ints D (pos i) (pos j))) x
      → ShowsCell m p i j (mark_valid x)
  marked_valid m p i j x h = record {
    owners = record {
      element = h.element;
      there = h.there;
      own = h.own;
      other = h.other;
      no_wish = h.no_wish;
    };
    valid_own = λ v. ground arith;
    valid_free = λ v. ground arith;
  }

  marked_taken :
      (m : GameMap D) (p : PlayerId) (i j : ℕ) (x : PlayerMapElement)
      → ShowsCell m p i j x
      → ShowsCell m p i j (mark_taken x)
  marked_taken m p i j x h = record {
    owners = record {
      element = h.owners.element;
      there = h.owners.there;
      own = h.owners.own;
      other = h.owners.other;
      no_wish = h.owners.no_wish;
    };
    valid_own = λ v. cc;
    valid_free = λ v. cc;
  }

  -- A fresh cell shows the owners as player 1 sees them.
  new_cell-ShowsOwners :
      (m : GameMap D) (i j : ℕ) (x : PlayerMapElement)
      → new_cell m i j ≡ ok x
      → ShowsOwners m player1 (of_ints D (pos i) (pos j)) x
  unfolding new_cell
  new_cell-ShowsOwners m i j x e =
      let (a, e₁, k₁) = >>=-eq-ok (get_element_by_offset m (of_ints D (pos i) (pos j))) _ e in
      subst (ShowsOwners m player1 (of_ints D (pos i) (pos j))) (ok-injective k₁)
        (record { element = a; there = e₁; own = refl; other = refl; no_wish = refl })

  -- The body of the loop over the players, on a map that shows the owners as the player sees them.
  player_map_shown :
      (s : State D) (p : PlayerId) (n : ℕ) (g g' : PlayerMap) (view view' : PlayerState D)
      → IsSquare n view.map
      → IsSquare n g
        × AllCells
            (λ i j. ShowsOwners s.map p (offset_as_seen p s.map (of_ints D (pos i) (pos j))))
            g
      → update_player_state s p g view ≡ ok (g', view')
      → IsSquare n g' × AllCells (ShowsCell s.map p) g' × AllCells (ShowsCell s.map p) view'.map
  unfolding update_player_state
  player_map_shown s p n g g' view view' old h e =
      let (a, e₁, k₁) = >>=-eq-ok (assign_tower_attributes s p false view.towers) _ e in
      let (b, e₂, k₂) =
        >>=-eq-ok (assign_tower_attributes s (enemy p) true view.enemy_towers) _ k₁ in
      let (c, e₃, k₃) = >>=-eq-ok (assign_soldier_attributes s p false view.soldiers) _ k₂ in
      let (d, e₄, k₄) =
        >>=-eq-ok (assign_soldier_attributes s (enemy p) true view.enemy_soldiers) _ k₃ in
      let (m, e₅, k₅) =
        >>=-eq-ok (mark_towers p s.map (at s.tower_managers p).towers (validate g)) _ k₄ in
      let (w, e₆, k₆) = >>=-eq-ok (copy_rows m view.map) _ k₅ in
      let (square, cells) =
        mark_towers-AllCells (ShowsCell s.map p) (marked_taken s.map p) p s.map
          (at s.tower_managers p).towers n (validate g) m e₅
          (
            validate-IsSquare n g h.0,
            validate-AllCells _ (ShowsCell s.map p) (marked_valid s.map p) g h.1,
          ) in
      let same : m ≡ w =
        copy_rows_lem m view.map w (square.rows ∙ sym old.rows)
          (λ i lt.
            let i_lt = subst (λ k. i < k) square.rows lt in
            square.columns i i_lt ∙ sym (old.columns i i_lt))
          e₆ in
      subst
        (λ (r : PlayerMap × PlayerState D).
          IsSquare n r.0
          × AllCells (ShowsCell s.map p) r.0
          × AllCells (ShowsCell s.map p) (r.1).map)
        (ok-injective k₆) (square, cells, subst (AllCells (ShowsCell s.map p)) same cells)

  -- The offset that player 2 means.
  turned_offset :
      (exact : IsExact D) (m : GameMap D) (i j : ℕ)
      → get_size m ≤ 2147483647
      → i < get_size m
      → j < get_size m
      → of_ints D (pos (get_size m - 1 - i)) (pos (get_size m - 1 - j))
        ≡ offset_as_seen player2 m (of_ints D (pos i) (pos j))
  turned_offset exact m i j hs hi hj =
      ap₂ (λ a b. record { x = a; y = b }) (turned (get_size m) i hs hi)
        (turned (get_size m) j hs hj)
    where
      whole : (n i : ℕ) → i < n → (pos n -ℤ pos 1) -ℤ pos i ≡ pos (n - 1 - i)
      whole n i h = grind int_laws

      small : (n : ℕ) → n ≤ 2147483647 → 0 < n → IsInt (pos n -ℤ pos 1)
      small n h k = (grind int_laws, grind int_laws)

      turned :
          (n i : ℕ)
          → n ≤ 2147483647
          → i < n
          → D.of_int (pos (n - 1 - i)) ≡ D.sub (D.of_int (pos n -ℤ pos 1)) (D.of_int (pos i))
      turned n i hs h =
          ap D.of_int (sym (whole n i h))
          ∙ sym (
              exact.sub_of_int (pos n -ℤ pos 1) (pos i) (small n hs (omega arith)) (omega arith)
                (subst IsInt (sym (whole n i h)) (omega arith)))

  -- `FlipMap` shows player 2 what player 1 was shown, from the other side.
  flip_map-ShowsOwners :
      (exact : IsExact D) (m : GameMap D) (g : PlayerMap)
      → get_size m ≤ 2147483647
      → get_size m % 2 ≡ 0
      → IsSquare (get_size m) g
      → AllCells (λ i j. ShowsOwners m player1 (of_ints D (pos i) (pos j))) g
      → AllCells
          (λ i j. ShowsOwners m player2 (offset_as_seen player2 m (of_ints D (pos i) (pos j))))
          (flip_map g)
  flip_map-ShowsOwners exact m g hs even square h i j x found =
      let (i_lt, j_lt) =
        cell_bounds (get_size m) (flip_map g) i j x (flip_map-IsSquare (get_size m) g square)
          found in
      let (y, there, same) = map_some swap_territory _ x (
        sym (
          flip_map_lem (get_size m) g i j square i_lt j_lt
            (inl (λ e. omega (arith, e, even, i_lt))))
        ∙ found) in
      let o = h (get_size m - 1 - i) (get_size m - 1 - j) y there in
      subst (ShowsOwners m player2 (offset_as_seen player2 m (of_ints D (pos i) (pos j)))) same
        (record {
          element = o.element;
          there =
              subst (λ v. get_element_by_offset m v ≡ ok o.element)
                (turned_offset exact m i j hs i_lt j_lt) o.there;
          own = o.other;
          other = o.own;
          no_wish = o.no_wish;
        })

  first_of_cell :
      (m : GameMap D) (i j : ℕ) (x : PlayerMapElement)
      → ShowsCell m player1 i j x
      → ShowsOwners m player1 (of_ints D (pos i) (pos j)) x
  first_of_cell m i j x h = h.owners

  -- Where `int`s convert, compare and are subtracted exactly, on a square map with an even number of
  -- rows, as large as the players' arrays, once `UpdatePlayerStates` returns, every cell that a player
  -- is shown stands for the element that the player's offset `(i, j)` means to `BuildTower`:
  -- `territory` says whether the player owns that element and `enemy_territory` whether the enemy
  -- does, no tower is asked for, and `valid_territory` is set only if the player owns it alone.
  pub update_player_states-ShowsCell :
      (exact : IsExact D) (s : State D) (views views' : PerPlayer (PlayerState D)) (p : PlayerId)
      → get_size s.map ≤ 2147483647
      → get_size s.map % 2 ≡ 0
      → ((q : PlayerId) → IsSquare (get_size s.map) (at views q).map)
      → update_player_states s views ≡ ok views'
      → AllCells (ShowsCell s.map p) (at views' p).map
  unfolding update_player_states
  update_player_states-ShowsCell exact s views views' p hs even old e =
      let n = get_size s.map in
      let (g, e₁, k₁) = >>=-eq-ok (new_player_map s.map) _ e in
      let (square, cells) = new_player_map_lem s.map g e₁ in
      let ((g₁, v₁), e₂, k₂) = >>=-eq-ok (update_player_state s player1 g views.first) _ k₁ in
      let ((g₂, v₂), e₃, k₃) =
        >>=-eq-ok (update_player_state s player2 (flip_map g₁) views.second) _ k₂ in
      let (square₁, cells₁, shown₁) =
        player_map_shown s player1 n g g₁ views.first v₁ (old player1)
          (square, λ i j x found. new_cell-ShowsOwners s.map i j x (cells i j x found)) e₂ in
      let (square₂, cells₂, shown₂) =
        player_map_shown s player2 n (flip_map g₁) g₂ views.second v₂ (old player2)
          (
            flip_map-IsSquare n g₁ square₁,
            flip_map-ShowsOwners exact s.map g₁ hs even square₁
                (λ i j x found. first_of_cell s.map i j x (cells₁ i j x found)),
          )
          e₃ in
      subst (λ (v : PerPlayer (PlayerState D)). AllCells (ShowsCell s.map p) (at v p).map)
        (ok-injective k₃)
        (elim p
          as (λ q. AllCells (ShowsCell s.map q) (at (record { first = v₁; second = v₂ }) q).map) [
            | player1 ↦ shown₁
            | player2 ↦ shown₂
          ])
