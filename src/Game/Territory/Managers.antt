-- ===== src/Game/Territory/Managers.antt =====
-- The update of one player's tower manager, as `State::Update` calls it.
use codecharacter_simulator.Prelude.{
  get_cell?, ◌≡◌, refl, sym, ap, ◌∙◌, subst, ok, >>=-eq-ok, ok-injective,
}
use codecharacter_simulator.Players.{PlayerId, player1, player2, at, enemy}
use codecharacter_simulator.Physics.Double.{Double, IsMonotone}
use codecharacter_simulator.Towers.Defs.{TowerRules, TowerScene}
use codecharacter_simulator.Towers.Counts.{IsRising}
use codecharacter_simulator.Towers.Invariant.{IsTerritory}
use codecharacter_simulator.Towers.Handlers
use codecharacter_simulator.Towers.Frame.{SameForEnemy, update-SameForEnemy, owned}
use codecharacter_simulator.Towers.Updates.{update-IsTerritory}
use codecharacter_simulator.Towers.Funds.{update-IsValid}
use codecharacter_simulator.Game.Defs.{State, with_manager}
use codecharacter_simulator.Game.Updates.{update_manager}
use codecharacter_simulator.Game.Territory.Defs.{IsSound, tower_scene, IsTerritory-owned}

module _ {D : Double} (r : TowerRules) (mono : IsMonotone D)
    (rising : IsRising r.tower_ranges) where
  -- The state after the manager of a player has updated.
  abbrev after : State D → PlayerId → TowerScene D → State D
  after s p done = record (with_manager s p done.manager) {
    money_manager = done.money;
    map = done.map;
    next_id = done.next_id;
  }

  -- What the other player's manager can reach then.
  abbrev other_scene : State D → PlayerId → TowerScene D → TowerScene D
  other_scene s p done = record {
    manager = at s.tower_managers (enemy p);
    money = done.money;
    map = done.map;
    next_id = done.next_id;
  }

  -- What the other manager can reach still satisfies its invariant.
  other-IsTerritory :
      (s : State D) (p : PlayerId) (done : TowerScene D)
      → IsSound r s
      → SameForEnemy (tower_scene s p) done
      → IsTerritory r (other_scene s p done)
  other-IsTerritory s p done h f =
      IsTerritory-owned r (tower_scene s (enemy p)) (other_scene s p done) refl f.shape
        (λ i j.
          subst
            (λ q.
              owned q (get_cell? done.map.map_elements i j)
              ≡ owned q (get_cell? s.map.map_elements i j))
            (ap enemy (h.owners p) ∙ sym (h.owners (enemy p))) (f.others i j))
        (h.territory (enemy p))

  after-IsSound :
      (s : State D) (p : PlayerId) (done : TowerScene D)
      → IsSound r s
      → Handlers.update r (tower_scene s p) ≡ ok done
      → IsSound r (after s p done)
  after-IsSound s p done h e = record {
    owners = owners_after p (f.owner ∙ h.owners p);
    territory =
        territory_after p
          (update-IsTerritory r mono rising (tower_scene s p) done (h.territory p) e)
          (other-IsTerritory s p done h f);
    balances = update-IsValid r (tower_scene s p) done h.balances e;
  }
    where
      f : SameForEnemy (tower_scene s p) done
      f = update-SameForEnemy r (tower_scene s p) done e

      owners_after :
          (p : PlayerId)
          → done.manager.player_id ≡ p
          → (q : PlayerId) → (at (after s p done).tower_managers q).player_id ≡ q
      owners_after player1 o player1 = o
      owners_after player1 o player2 = h.owners player2
      owners_after player2 o player1 = h.owners player1
      owners_after player2 o player2 = o

      territory_after :
          (p : PlayerId)
          → IsTerritory r done
          → IsTerritory r (other_scene s p done)
          → (q : PlayerId) → IsTerritory r (tower_scene (after s p done) q)
      territory_after player1 own other player1 = own
      territory_after player1 own other player2 = other
      territory_after player2 own other player1 = other
      territory_after player2 own other player2 = own

  pub update_manager-IsSound :
      (p : PlayerId) (s s' : State D) → IsSound r s → update_manager r p s ≡ ok s' → IsSound r s'
  unfolding update_manager
  update_manager-IsSound p s s' h e =
      let (done, e₁, k₁) = >>=-eq-ok (Handlers.update r (tower_scene s p)) _ e in
      subst (IsSound r) (ok-injective k₁) (after-IsSound s p done h e₁)
