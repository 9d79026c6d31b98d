-- ===== src/Driver/Calm.antt =====
-- A game that nothing interrupts, and a game that a player forfeits.
use codecharacter_simulator.Prelude.{
  ℕ, zero, suc, ◌≡◌, refl, ap, ◌∙◌, Bool, true, false, ltb_ℤ, Result, ok, err, ◌>>=◌, >>=-split,
  if◌then◌else◌,
}
use codecharacter_simulator.Players.{PlayerId, player1, player2, PerPlayer, at, put}
use codecharacter_simulator.Physics.Double.{Double}
use codecharacter_simulator.Game.Defs.{State}
use codecharacter_simulator.Syncer.PlayerState.{PlayerState}
use codecharacter_simulator.View.Defs.{update_player_states}
use codecharacter_simulator.Driver.Defs.{
  DriverRules, Observed, Environment, Progress, goes_on, started, check_counter, player_turn,
  next_player, check_over, players, turn, final_results, after_players, run, start,
}

module _ {D : Double} (r : DriverRules D) where
  -- Who is skipped: the players above the limit for a turn.
  abbrev pub skips_of : Observed D → PerPlayer Bool
  skips_of o = record {
    first = ltb_ℤ r.player_instruction_limit_turn o.instruction_counter.first;
    second = ltb_ℤ r.player_instruction_limit_turn o.instruction_counter.second;
  }

  -- The turns of a game one after another, without the driver's bookkeeping.
  unfoldable pub play :
      Environment D → ℕ → ℕ → State D → PerPlayer (PlayerState D) → Result (State D)
  play env zero i s views = ok s
  play env (suc n) i s views = do
    s' ←
        turn r.syncer_rules r.tower_rules r.soldier_rules (env i views).written
          (skips_of (env i views)) s
    shown ← update_player_states s' (env i views).written
    play env n (suc i) s' shown

  -- No call of `Cancel`, no time-out, and no player above the limit for the game.
  pub record IsCalm (o : Observed D) : Type 0 where
    pub not_cancelled : (p : PlayerId) → at o.cancel p ≡ false
    pub in_time : o.is_game_timed_out ≡ false
    pub within_limit :
        (p : PlayerId) → ltb_ℤ r.player_instruction_limit_game (at o.instruction_counter p) ≡ false

  check_counter_calm :
      (o : Observed D) (p : PlayerId) (g : Progress)
      → IsCalm o
      → player_turn r o p g
        ≡ goes_on (record g {
          skip_player_turn =
              put g.skip_player_turn p
                (ltb_ℤ r.player_instruction_limit_turn (at o.instruction_counter p));
        })
  unfolding player_turn check_counter
  check_counter_calm o p g calm =
      rw (calm.not_cancelled p, calm.within_limit p)
        (by_limit (ltb_ℤ r.player_instruction_limit_turn (at o.instruction_counter p)))
    where
      by_limit :
          (b : Bool)
          → goes_on (
              if b
              then record g { skip_player_turn = put g.skip_player_turn p true }
              else record g { skip_player_turn = put g.skip_player_turn p false })
            ≡ goes_on (record g { skip_player_turn = put g.skip_player_turn p b })
      by_limit true = refl
      by_limit false = refl

  players_calm :
      (o : Observed D) (g : Progress)
      → IsCalm o
      → g.instruction_count_exceeded ≡ false
      → players r o g ≡ goes_on (record g { skip_player_turn = skips_of o })
  unfolding players
  players_calm o g calm none =
      ap (λ f. check_over o (next_player r o player2 f)) (check_counter_calm o player1 g calm)
      ∙ ap (check_over o) (
          check_counter_calm o player2
            (record g { skip_player_turn = put g.skip_player_turn player1 (skips_of o).first })
            calm)
      ∙ rw (none, calm.in_time) refl

  run_calm :
      (env : Environment D) (n i : ℕ) (s : State D) (views : PerPlayer (PlayerState D))
      (g : Progress)
      → ((k : ℕ) (shown : PerPlayer (PlayerState D)) → IsCalm (env k shown))
      → g.instruction_count_exceeded ≡ false
      → run r env n i s views g ≡ (play env n i s views >>= λ s'. ok (s', final_results s'))
  unfolding run play
  run_calm env zero i s views g calm none = refl
  run_calm env (suc n) i s views g calm none =
      let o = env i views in
      ap (after_players r s o (run r env n (suc i))) (players_calm o g (calm i views) none)
      ∙ >>=-split (turn r.syncer_rules r.tower_rules r.soldier_rules o.written (skips_of o) s) _ _ _
          (λ s'. >>=-split (update_player_states s' o.written) _ _ _ (λ shown.
            run_calm env n (suc i) s' shown (record g { skip_player_turn = skips_of o }) calm none))

  -- A game in which nobody calls `Cancel`, the timer does not run out and no player exceeds the limit
  -- for the game comes to its end: `Start` does what playing the turns one after another does, in each
  -- of which exactly the players above the limit for a turn are skipped, and then returns normal
  -- results with the scores of the last state. It fails only where a turn fails.
  pub start_calm :
      (env : Environment D) (max_no_turns : ℕ) (s : State D) (views : PerPlayer (PlayerState D))
      → ((k : ℕ) (shown : PerPlayer (PlayerState D)) → IsCalm (env k shown))
      → start r env max_no_turns s views ≡ (
          update_player_states s views >>= λ shown.
          play env max_no_turns 0 s shown >>= λ s'. ok (s', final_results s'))
  unfolding start
  start_calm env max_no_turns s views calm = by_shown (update_player_states s views)
    where
      by_shown :
          (m : Result (PerPlayer (PlayerState D)))
          → (m >>= λ shown. run r env max_no_turns 0 s shown started)
            ≡ (m >>= λ shown. play env max_no_turns 0 s shown >>= λ s'. ok (s', final_results s'))
      by_shown (err e) = refl
      by_shown (ok shown) = run_calm env max_no_turns 0 s shown started calm refl
