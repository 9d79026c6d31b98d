-- ===== src/Driver/Results.antt =====
-- What the results of a game can be.
use codecharacter_simulator.Prelude.{
  ℕ, zero, suc, ◌≡◌, refl, sym, ap, ◌∙◌, subst, Bool, true, false, ℤ, pos, ltb_ℤ, Result, ok,
  >>=-eq-ok, ok-injective, if◌then◌else◌, inl, inr, ◌⊎◌,
}
use codecharacter_simulator.Players.{PlayerId, player1, player2, PerPlayer, at, put}
use codecharacter_simulator.Physics.Double.{Double}
use codecharacter_simulator.Game.Defs.{State}
use codecharacter_simulator.Syncer.PlayerState.{PlayerState}
use codecharacter_simulator.View.Defs.{update_player_states}
use codecharacter_simulator.Driver.Defs.{
  undefined_result, exceeded_instruction_limit, PlayerResult, DriverRules, Observed, Environment,
  Progress, Flow, returned, goes_on, started, check_counter, player_turn, next_player, check_over,
  players, turn, final_results, after_players, run, start,
}

-- No score, and nothing worse than too many instructions.
abbrev pub IsOpen : PlayerResult → Type 0
IsOpen x =
    (x.score ≡ pos 0) × ((x.status ≡ undefined_result) ⊎ (x.status ≡ exceeded_instruction_limit))

abbrev AreOpen : PerPlayer PlayerResult → Type 0
AreOpen v = (p : PlayerId) → IsOpen (at v p)

-- The results of a flow, or those so far.
abbrev FlowOpen : Flow → Type 0
FlowOpen (returned v) = AreOpen v
FlowOpen (goes_on g) = AreOpen g.player_results

module _ {D : Double} where
  check_counter-AreOpen :
      (r : DriverRules D) (p : PlayerId) (counter : ℤ) (g : Progress)
      → AreOpen g.player_results
      → AreOpen (check_counter r p counter g).player_results
  unfolding check_counter
  check_counter-AreOpen r p counter g h =
      by_tests (ltb_ℤ r.player_instruction_limit_game counter)
        (ltb_ℤ r.player_instruction_limit_turn counter)
    where
      marked :
          (p q : PlayerId)
          → IsOpen (
              at
                (put g.player_results p
                  (record (at g.player_results p) { status = exceeded_instruction_limit }))
                q)
      marked player1 player1 = ((h player1).0, inr refl)
      marked player1 player2 = h player2
      marked player2 player1 = h player1
      marked player2 player2 = ((h player2).0, inr refl)

      by_tests :
          (a b : Bool)
          → AreOpen
              (if a
                then record g {
                  player_results =
                      put g.player_results p
                        (record (at g.player_results p) { status = exceeded_instruction_limit });
                  instruction_count_exceeded = true;
                }
                else if b
                then record g { skip_player_turn = put g.skip_player_turn p true }
                else record g { skip_player_turn = put g.skip_player_turn p false }).player_results
      by_tests true b = marked p
      by_tests false true = h
      by_tests false false = h

  player_turn-FlowOpen :
      (r : DriverRules D) (o : Observed D) (p : PlayerId) (g : Progress)
      → AreOpen g.player_results
      → FlowOpen (player_turn r o p g)
  unfolding player_turn
  player_turn-FlowOpen r o p g h = by_flag (at o.cancel p)
    where
      by_flag :
          (b : Bool)
          → FlowOpen (
              if b
              then returned g.player_results
              else goes_on (check_counter r p (at o.instruction_counter p) g))
      by_flag true = h
      by_flag false = check_counter-AreOpen r p (at o.instruction_counter p) g h

  players-FlowOpen :
      (r : DriverRules D) (o : Observed D) (g : Progress)
      → AreOpen g.player_results
      → FlowOpen (players r o g)
  unfolding players
  players-FlowOpen r o g h = over _ (second _ (player_turn-FlowOpen r o player1 g h))
    where
      second : (f : Flow) → FlowOpen f → FlowOpen (next_player r o player2 f)
      second (returned v) k = k
      second (goes_on g') k = player_turn-FlowOpen r o player2 g' k

      by_test :
          (b : Bool) (g' : Progress)
          → AreOpen g'.player_results
          → FlowOpen (if b then returned g'.player_results else goes_on g')
      by_test true g' k = k
      by_test false g' k = k

      over : (f : Flow) → FlowOpen f → FlowOpen (check_over o f)
      over (returned v) k = k
      over (goes_on g') k = by_test _ g' k

  -- How a game can end.
  abbrev pub IsOutcome : State D → PerPlayer PlayerResult → Type 0
  IsOutcome s v = (v ≡ final_results s) ⊎ AreOpen v

  after_players-IsOutcome :
      (r : DriverRules D) (s s' : State D) (o : Observed D) (f : Flow)
      (results : PerPlayer PlayerResult)
      (next : State D
        → PerPlayer (PlayerState D)
        → Progress
        → Result (State D × PerPlayer PlayerResult))
      → ((t : State D) (views : PerPlayer (PlayerState D)) (g : Progress)
          → AreOpen g.player_results
          → next t views g ≡ ok (s', results)
          → IsOutcome s' results)
      → FlowOpen f
      → after_players r s o next f ≡ ok (s', results)
      → IsOutcome s' results
  after_players-IsOutcome r s s' o (returned v) results next later h e =
      inr (subst AreOpen (ap (λ (x : State D × PerPlayer PlayerResult). x.1) (ok-injective e)) h)
  after_players-IsOutcome r s s' o (goes_on g) results next later h e =
      let (t, e₁, k₁) =
        >>=-eq-ok (turn r.syncer_rules r.tower_rules r.soldier_rules o.written g.skip_player_turn s)
          _ e in
      let (shown, e₂, k₂) = >>=-eq-ok (update_player_states t o.written) _ k₁ in
      later t shown g h k₂

  run-IsOutcome :
      (r : DriverRules D) (env : Environment D) (n i : ℕ) (s s' : State D)
      (views : PerPlayer (PlayerState D)) (g : Progress) (results : PerPlayer PlayerResult)
      → AreOpen g.player_results
      → run r env n i s views g ≡ ok (s', results)
      → IsOutcome s' results
  unfolding run
  run-IsOutcome r env zero i s s' views g results h e = inl (
      ap (λ (x : State D × PerPlayer PlayerResult). x.1) (sym (ok-injective e))
      ∙ ap (λ (x : State D × PerPlayer PlayerResult). final_results x.0) (ok-injective e))
  run-IsOutcome r env (suc n) i s s' views g results h e =
      after_players-IsOutcome r s s' (env i views) (players r (env i views) g) results
        (run r env n (suc i)) (λ t shown g'. run-IsOutcome r env n (suc i) t s' shown g' results)
        (players-FlowOpen r (env i views) g h) e

  -- A game that returns, whatever the players, the timer and `Cancel` do, ends in one of two ways:
  -- both results are normal and carry the scores of the state at the end, or no player has a score,
  -- and each result is undefined or says that the player exceeded the instruction limit. A normal
  -- result of one player beside an undefined one of the other does not occur.
  pub start-IsOutcome :
      (r : DriverRules D) (env : Environment D) (max_no_turns : ℕ) (s s' : State D)
      (views : PerPlayer (PlayerState D)) (results : PerPlayer PlayerResult)
      → start r env max_no_turns s views ≡ ok (s', results)
      → IsOutcome s' results
  unfolding start
  start-IsOutcome r env max_no_turns s s' views results e =
      let (shown, e₁, k₁) = >>=-eq-ok (update_player_states s views) _ e in
      run-IsOutcome r env max_no_turns 0 s s' shown started results
        (λ p. elim p as (λ q. IsOpen (at started.player_results q)) [
          | player1 ↦ (refl, inl refl)
          | player2 ↦ (refl, inl refl)
        ])
        k₁
