-- ===== src/Game/Territory/Defs.antt =====
-- What has to hold of the towers, the money and the map of a state, and what carries it over.
use codecharacter_simulator.Prelude.{ℕ, ◌≡◌, sym, ◌∙◌, subst, ℤ, Option, none, some, get_cell?}
use mathlib.Core.Option.{some-injective}
use codecharacter_simulator.Players.{PlayerId, at}
use codecharacter_simulator.Physics.Double.{Double}
use codecharacter_simulator.Map.{GameMap, MapElement, get_size}
use codecharacter_simulator.Money.Bounds.{IsValid}
use codecharacter_simulator.Towers.Defs.{TowerRules, TowerManager, TowerScene}
use codecharacter_simulator.Towers.Counts.{holders}
use codecharacter_simulator.Towers.Invariant.{FitsAt, IsTerritory}
use codecharacter_simulator.Towers.Frame.{owned}
use codecharacter_simulator.Game.Defs.{State}

module _ {D : Double} where
  -- What the manager of a player's towers can reach.
  abbrev pub tower_scene : State D → PlayerId → TowerScene D
  tower_scene s p = record {
    manager = at s.tower_managers p;
    money = s.money_manager;
    map = s.map;
    next_id = s.next_id;
  }

  -- Each manager works for its player, every cell's reference counts are the numbers of towers that
  -- hold it, each player owns the cells with a count, and the balances are valid.
  pub record IsSound (r : TowerRules) (s : State D) : Type 0 where
    pub owners : (p : PlayerId) → (at s.tower_managers p).player_id ≡ p
    pub territory : (p : PlayerId) → IsTerritory r (tower_scene s p)
    pub balances : IsValid s.money_manager

  FitsAt-owned :
      (p : PlayerId) (k : Option ℤ) (e e' : Option (MapElement D)) (n : ℕ)
      → owned p e' ≡ owned p e
      → FitsAt p k e n
      → FitsAt p k e' n
  FitsAt-owned p (some k) (some e) (some e') n o h = (h.0, some-injective _ _ o ∙ h.1)
  FitsAt-owned p none none none n o h = tt
  FitsAt-owned p k none (some e') n o h = cc
  FitsAt-owned p k (some e) none n o h = cc
  FitsAt-owned p (some k) none none n o h = h
  FitsAt-owned p none (some e) (some e') n o h = h

  -- Territory needs of a scene what the manager and the player's ownership of the cells say.
  pub IsTerritory-owned :
      (r : TowerRules) (s s' : TowerScene D)
      → s'.manager ≡ s.manager
      → (get_size s'.map ≡ get_size s.map) × (s'.map.element_size ≡ s.map.element_size)
      → ((i j : ℕ)
          → owned s.manager.player_id (get_cell? s'.map.map_elements i j)
            ≡ owned s.manager.player_id (get_cell? s.map.map_elements i j))
      → IsTerritory r s
      → IsTerritory r s'
  IsTerritory-owned r s s' same (size, es) o h i j =
      subst
        (λ (m : TowerManager D).
          FitsAt m.player_id (get_cell? m.territory_refs i j) (get_cell? s'.map.map_elements i j)
            (holders r (get_size s'.map) s'.map.element_size m.towers i j))
        (sym same)
        (subst
          (λ n.
            FitsAt s.manager.player_id (get_cell? s.manager.territory_refs i j)
              (get_cell? s'.map.map_elements i j)
              (holders r n s'.map.element_size s.manager.towers i j))
          (sym size)
          (subst
            (λ z.
              FitsAt s.manager.player_id (get_cell? s.manager.territory_refs i j)
                (get_cell? s'.map.map_elements i j)
                (holders r (get_size s.map) z s.manager.towers i j))
            (sym es) (FitsAt-owned s.manager.player_id _ _ _ _ (o i j) (h i j))))

  -- Territory needs of the towers only how many of them hold each cell.
  pub IsTerritory-holders :
      (r : TowerRules) (s s' : TowerScene D)
      → s'.manager.player_id ≡ s.manager.player_id
      → s'.manager.territory_refs ≡ s.manager.territory_refs
      → s'.map ≡ s.map
      → ((i j : ℕ)
          → holders r (get_size s.map) s.map.element_size s'.manager.towers i j
            ≡ holders r (get_size s.map) s.map.element_size s.manager.towers i j)
      → IsTerritory r s
      → IsTerritory r s'
  IsTerritory-holders r s s' p refs same n h i j =
      subst
        (λ (g : GameMap D).
          FitsAt s'.manager.player_id (get_cell? s'.manager.territory_refs i j)
            (get_cell? g.map_elements i j)
            (holders r (get_size g) g.element_size s'.manager.towers i j))
        (sym same)
        (subst
          (λ q.
            FitsAt q (get_cell? s'.manager.territory_refs i j) (get_cell? s.map.map_elements i j)
              (holders r (get_size s.map) s.map.element_size s'.manager.towers i j))
          (sym p)
          (subst
            (λ t.
              FitsAt s.manager.player_id (get_cell? t i j) (get_cell? s.map.map_elements i j)
                (holders r (get_size s.map) s.map.element_size s'.manager.towers i j))
            (sym refs)
            (subst
              (λ k.
                FitsAt s.manager.player_id (get_cell? s.manager.territory_refs i j)
                  (get_cell? s.map.map_elements i j) k)
              (sym (n i j)) (h i j))))
