-- ===== src/Driver/Forfeit.antt =====
-- A player who exceeds the instruction limit of the game.
use codecharacter_simulator.Prelude.{
  ℕ, suc, ◌≡◌, refl, ap, ◌∙◌, Bool, true, false, ◌||◌, ltb_ℤ, ok, if◌then◌else◌,
}
use codecharacter_simulator.Players.{PlayerId, player1, player2, PerPlayer, at, put}
use codecharacter_simulator.Physics.Double.{Double}
use codecharacter_simulator.Game.Defs.{State}
use codecharacter_simulator.Syncer.PlayerState.{PlayerState}
use codecharacter_simulator.Driver.Defs.{
  PlayerResult, exceeded_instruction_limit, DriverRules, Observed, Environment, Progress, returned,
  goes_on, check_counter, player_turn, next_player, check_over, players, after_players, run,
}

module _ {D : Double} (r : DriverRules D) where
  -- The player is marked, and the game is to be over.
  abbrev IsMarked : PlayerId → Progress → Type 0
  IsMarked p g =
      ((at g.player_results p).status ≡ exceeded_instruction_limit)
      × (g.instruction_count_exceeded ≡ true)

  marks :
      (o : Observed D) (p : PlayerId) (g : Progress)
      → ltb_ℤ r.player_instruction_limit_game (at o.instruction_counter p) ≡ true
      → IsMarked p (check_counter r p (at o.instruction_counter p) g)
  unfolding check_counter
  marks o player1 g k = rw k (refl, refl)
  marks o player2 g k = rw k (refl, refl)

  -- The check of player 2 leaves the mark of player 1.
  stays-IsMarked :
      (o : Observed D) (g : Progress)
      → IsMarked player1 g
      → IsMarked player1 (check_counter r player2 (at o.instruction_counter player2) g)
  unfolding check_counter
  stays-IsMarked o g h =
      by_tests (ltb_ℤ r.player_instruction_limit_game o.instruction_counter.second)
        (ltb_ℤ r.player_instruction_limit_turn o.instruction_counter.second)
    where
      by_tests :
          (a b : Bool)
          → IsMarked player1 (
              if a
              then record g {
                player_results =
                    put g.player_results player2 (record (at g.player_results player2) {
                      status = exceeded_instruction_limit;
                    });
                instruction_count_exceeded = true;
              }
              else if b
              then record g { skip_player_turn = put g.skip_player_turn player2 true }
              else record g { skip_player_turn = put g.skip_player_turn player2 false })
      by_tests true b = (h.0, refl)
      by_tests false true = h
      by_tests false false = h

  both-IsMarked :
      (o : Observed D) (p : PlayerId) (g : Progress)
      → ltb_ℤ r.player_instruction_limit_game (at o.instruction_counter p) ≡ true
      → IsMarked p (
          check_counter r player2
            (at o.instruction_counter player2)
            (check_counter r player1 (at o.instruction_counter player1) g))
  both-IsMarked o player1 g k = stays-IsMarked o _ (marks o player1 g k)
  both-IsMarked o player2 g k = marks o player2 _ k

  turns :
      (o : Observed D) (p : PlayerId) (g : Progress)
      → at o.cancel p ≡ false
      → player_turn r o p g ≡ goes_on (check_counter r p (at o.instruction_counter p) g)
  unfolding player_turn
  turns o p g h = rw h refl

  -- When a player's counter is above the limit for the game in some turn, and nobody calls `Cancel` in
  -- it, `Run` returns in that turn: neither player's commands are run, the state stays as it is, and
  -- the player's result says that the limit was exceeded.
  pub run_forfeit :
      (env : Environment D) (n i : ℕ) (s : State D) (views : PerPlayer (PlayerState D))
      (g : Progress) (p : PlayerId)
      → ((q : PlayerId) → at (env i views).cancel q ≡ false)
      → ltb_ℤ r.player_instruction_limit_game (at (env i views).instruction_counter p) ≡ true
      → (results : PerPlayer PlayerResult) × (run r env (suc n) i s views g ≡ ok (s, results))
        × ((at results p).status ≡ exceeded_instruction_limit)
  unfolding run players
  run_forfeit env n i s views g p free above =
      let o = env i views in
      let g₁ = check_counter r player1 (at o.instruction_counter player1) g in
      let g₂ = check_counter r player2 (at o.instruction_counter player2) g₁ in
      let marked = both-IsMarked o p g above in
      (
        g₂.player_results,
        ap (after_players r s o (run r env n (suc i))) (
            ap (λ f. check_over o (next_player r o player2 f)) (turns o player1 g (free player1))
            ∙ ap (check_over o) (turns o player2 g₁ (free player2))
            ∙ ap (λ b. if b || o.is_game_timed_out then returned g₂.player_results else goes_on g₂)
                marked.1),
        marked.0,
      )
