-- ===== src/Driver/Sound.antt =====
-- The territory and the balances over a turn of the game, and over the whole game.
use codecharacter_simulator.Prelude.{
  ℕ, zero, suc, ok-injective, ◌≡◌, ◌∙◌, sym, ap, subst, Bool, Result, ok, >>=-eq-ok,
}
use codecharacter_simulator.Players.{PerPlayer}
use codecharacter_simulator.Physics.Double.{Double, IsMonotone}
use codecharacter_simulator.Map.{get_size}
use codecharacter_simulator.Money.Bounds.{IsValid}
use codecharacter_simulator.Soldier.Scene.{Rules}
use codecharacter_simulator.Towers.Defs.{TowerRules}
use codecharacter_simulator.Towers.Counts.{IsRising, holders}
use codecharacter_simulator.Game.Defs.{State}
use codecharacter_simulator.Game.Territory.Defs.{IsSound, tower_scene, IsTerritory-holders}
use codecharacter_simulator.Game.Territory.Updates.{update-IsSound}
use codecharacter_simulator.Syncer.PlayerState.{PlayerState}
use codecharacter_simulator.Syncer.Commands.{SyncerRules, Turn}
use codecharacter_simulator.Syncer.Keeps.{IsKept}
use codecharacter_simulator.Syncer.Turns.{execute_player_commands}
use codecharacter_simulator.Syncer.Turnover.{execute_player_commands-IsKept}
use codecharacter_simulator.View.Defs.{update_player_states}
use codecharacter_simulator.Driver.Defs.{
  DriverRules, Environment, Observed, Progress, PlayerResult, Flow, returned, goes_on, turn,
  players, after_players, run, start, started,
}

module _ {D : Double} where
  commands-IsSound :
      (tr : TowerRules) (c : SyncerRules) (s : State D) (t : Turn D)
      → IsKept c s t
      → IsSound tr s
      → IsSound tr t.state
  commands-IsSound tr c s t k h = record {
    owners = λ p. k.owner_same p ∙ h.owners p;
    territory = λ p.
        IsTerritory-holders tr (tower_scene s p) (tower_scene t.state p) (k.owner_same p)
          (k.refs_same p) k.map_same
          (λ i j.
            ap (λ ts. holders tr (get_size s.map) s.map.element_size ts i j) (k.towers_same p))
          (h.territory p);
    balances = subst IsValid (sym k.money_same) h.balances;
  }

  module _ (tr : TowerRules) (mono : IsMonotone D) (rising : IsRising tr.tower_ranges) where
    -- Where conversion and addition of `double`s are monotone and no range shrinks with the level, a
    -- turn that returns keeps both players' territory right and the balances within 0 and the maximum,
    -- whatever the players wrote and whether or not either is skipped.
    pub turn-IsSound :
        (c : SyncerRules) (r : Rules D) (views : PerPlayer (PlayerState D)) (skips : PerPlayer Bool)
        (s s' : State D)
        → IsSound tr s
        → turn c tr r views skips s ≡ ok s'
        → IsSound tr s'
    unfolding turn
    turn-IsSound c r views skips s s' h e =
        let (t, e₁, k₁) = >>=-eq-ok (execute_player_commands c views skips s) _ e in
        update-IsSound tr mono rising r t.state s'
          (commands-IsSound tr c s t
            (execute_player_commands-IsKept c views skips s t h.balances e₁) h)
          k₁

  module _ (r : DriverRules D) (mono : IsMonotone D)
      (rising : IsRising r.tower_rules.tower_ranges) where
    after_players-IsSound :
        (s s' : State D) (o : Observed D) (f : Flow) (results : PerPlayer PlayerResult)
        (next : State D
          → PerPlayer (PlayerState D)
          → Progress
          → Result (State D × PerPlayer PlayerResult))
        → ((t : State D) (views : PerPlayer (PlayerState D)) (g : Progress)
            → IsSound r.tower_rules t
            → next t views g ≡ ok (s', results)
            → IsSound r.tower_rules s')
        → IsSound r.tower_rules s
        → after_players r s o next f ≡ ok (s', results)
        → IsSound r.tower_rules s'
    after_players-IsSound s s' o (returned res) results next later h e =
        subst (IsSound r.tower_rules)
          (ap (λ (x : State D × PerPlayer PlayerResult). x.0) (ok-injective e)) h
    after_players-IsSound s s' o (goes_on g) results next later h e =
        let (t, e₁, k₁) =
          >>=-eq-ok
            (turn r.syncer_rules r.tower_rules r.soldier_rules o.written g.skip_player_turn s) _
            e in
        let (shown, e₂, k₂) = >>=-eq-ok (update_player_states t o.written) _ k₁ in
        later t shown g
          (turn-IsSound r.tower_rules mono rising r.syncer_rules r.soldier_rules o.written
            g.skip_player_turn s t h e₁)
          k₂

    run-IsSound :
        (env : Environment D) (n i : ℕ) (s s' : State D) (views : PerPlayer (PlayerState D))
        (g : Progress) (results : PerPlayer PlayerResult)
        → IsSound r.tower_rules s
        → run r env n i s views g ≡ ok (s', results)
        → IsSound r.tower_rules s'
    unfolding run
    run-IsSound env zero i s s' views g results h e =
        subst (IsSound r.tower_rules)
          (ap (λ (x : State D × PerPlayer PlayerResult). x.0) (ok-injective e)) h
    run-IsSound env (suc n) i s s' views g results h e =
        after_players-IsSound s s' (env i views) (players r (env i views) g) results
          (run r env n (suc i)) (λ t shown g'. run-IsSound env n (suc i) t s' shown g' results) h e

    -- Where conversion and addition of `double`s are monotone and no range shrinks with the level, a
    -- game that returns, however it ends and whatever the players wrote in it, has kept both players'
    -- territory right and the balances within 0 and the maximum.
    pub start-IsSound :
        (env : Environment D) (max_no_turns : ℕ) (s s' : State D)
        (views : PerPlayer (PlayerState D)) (results : PerPlayer PlayerResult)
        → IsSound r.tower_rules s
        → start r env max_no_turns s views ≡ ok (s', results)
        → IsSound r.tower_rules s'
    unfolding start
    start-IsSound env max_no_turns s s' views results h e =
        let (shown, e₁, k₁) = >>=-eq-ok (update_player_states s views) _ e in
        run-IsSound env max_no_turns 0 s s' shown started results h k₁
