-- ===== src/Game/Territory/Updates.antt =====
-- `State::Update` as a whole.
use codecharacter_simulator.Prelude.{◌≡◌, ok, >>=-eq-ok}
use codecharacter_simulator.Players.{player1, player2}
use codecharacter_simulator.Physics.Double.{Double, IsMonotone}
use codecharacter_simulator.Soldier.Scene.{Rules}
use codecharacter_simulator.Soldier.Machine
use codecharacter_simulator.Soldier.Targets.{update-Spares, late_update-Spares}
use codecharacter_simulator.Towers.Defs.{TowerRules}
use codecharacter_simulator.Towers.Counts.{IsRising}
use codecharacter_simulator.Game.Defs.{State}
use codecharacter_simulator.Game.Updates.{update_manager, all_soldiers, update}
use codecharacter_simulator.Game.Territory.Defs.{IsSound}
use codecharacter_simulator.Game.Territory.Managers.{update_manager-IsSound}
use codecharacter_simulator.Game.Territory.Soldiers.{all_soldiers-IsSound}

module _ {D : Double} (tr : TowerRules) (mono : IsMonotone D)
    (rising : IsRising tr.tower_ranges) where
  -- Where conversion and addition of `double`s are monotone and no range shrinks with the level, a
  -- whole update of a state that returns keeps both players' territory right: each manager still
  -- works for its player, every cell's reference count is the number of that player's towers that
  -- hold the cell, the player owns exactly the cells with a count above zero, and the balances stay
  -- within 0 and the maximum. Neither the other manager nor the soldiers' hits disturb that.
  pub update-IsSound :
      (r : Rules D) (s s' : State D) → IsSound tr s → update tr r s ≡ ok s' → IsSound tr s'
  unfolding update
  update-IsSound r s s' h e =
      let (a, e₁, k₁) = >>=-eq-ok (update_manager tr player1 s) _ e in
      let (b, e₂, k₂) = >>=-eq-ok (update_manager tr player2 a) _ k₁ in
      let (c, e₃, k₃) = >>=-eq-ok (all_soldiers (Machine.update r) b) _ k₂ in
      let ha = update_manager-IsSound tr mono rising player1 s a h e₁ in
      let hb = update_manager-IsSound tr mono rising player2 a b ha e₂ in
      let hc = all_soldiers-IsSound tr (Machine.update r) (update-Spares r) b c hb e₃ in
      all_soldiers-IsSound tr (Machine.late_update r) (late_update-Spares r) c s' hc k₃
