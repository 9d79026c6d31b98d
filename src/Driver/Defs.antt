-- ===== src/Driver/Defs.antt =====
-- drivers/main_driver.h, main_driver.cpp and player_result.h. The players run in other processes, and
-- the timer and `Cancel` on other threads: what the driver reads of them is a parameter.
use codecharacter_simulator.Prelude.{
  ℕ, zero, suc, Bool, true, false, ◌||◌, ℤ, pos, ltb_ℤ, Result, ok, ◌>>=◌, if◌then◌else◌,
}
use codecharacter_simulator.Players.{PlayerId, player1, player2, PerPlayer, at, put}
use codecharacter_simulator.Physics.Double.{Double}
use codecharacter_simulator.Soldier.Scene.{Rules}
use codecharacter_simulator.Towers.Defs.{TowerRules}
use codecharacter_simulator.Game.Defs.{State, get_score}
use codecharacter_simulator.Game.Updates.{update}
use codecharacter_simulator.Syncer.PlayerState.{PlayerState}
use codecharacter_simulator.Syncer.Commands.{SyncerRules}
use codecharacter_simulator.Syncer.Turns.{execute_player_commands}
use codecharacter_simulator.View.Defs.{update_player_states}

-- `PlayerResult::Status`.
pub data Status : Type 0 where
  undefined_result normal exceeded_instruction_limit runtime_error : Status

pub record PlayerResult : Type 0 where
  pub score : ℤ
  pub status : Status

-- The constructor parameters of `MainDriver` that limit the players, and the constants of the parts.
pub record DriverRules (D : Double) : Type 0 where
  pub player_instruction_limit_turn : ℤ
  pub player_instruction_limit_game : ℤ
  pub syncer_rules : SyncerRules
  pub tower_rules : TowerRules
  pub soldier_rules : Rules D

-- What the driver reads in a turn: the shared memory of each player and the flag `cancel` when the
-- wait for the player ends, and whether the timer has run out when the players are done.
pub record Observed (D : Double) : Type 0 where
  pub written : PerPlayer (PlayerState D)
  pub instruction_counter : PerPlayer ℤ
  pub cancel : PerPlayer Bool
  pub is_game_timed_out : Bool

-- From the number of the turn and what the players were shown.
abbrev pub Environment : Double → Type 0
Environment D = ℕ → PerPlayer (PlayerState D) → Observed D

-- The locals of `Run`.
pub record Progress : Type 0 where
  pub skip_player_turn : PerPlayer Bool
  pub player_results : PerPlayer PlayerResult
  pub instruction_count_exceeded : Bool

-- Whether `Run` has returned.
pub data Flow : Type 0 where
  returned : PerPlayer PlayerResult → Flow
  goes_on : Progress → Flow

abbrev pub no_result : PlayerResult
no_result = record { score = pos 0; status = undefined_result }

abbrev pub started : Progress
started = record {
  skip_player_turn = record { first = false; second = false };
  player_results = record { first = no_result; second = no_result };
  instruction_count_exceeded = false;
}

module _ {D : Double} where
  -- The checks of a player's instruction counter.
  unfoldable pub check_counter : DriverRules D → PlayerId → ℤ → Progress → Progress
  check_counter r p counter g =
      if ltb_ℤ r.player_instruction_limit_game counter
      then record g {
        player_results =
            put g.player_results p
              (record (at g.player_results p) { status = exceeded_instruction_limit });
        instruction_count_exceeded = true;
      }
      else if ltb_ℤ r.player_instruction_limit_turn counter
      then record g { skip_player_turn = put g.skip_player_turn p true }
      else record g { skip_player_turn = put g.skip_player_turn p false }

  -- The body of the loop over the players.
  unfoldable pub player_turn : DriverRules D → Observed D → PlayerId → Progress → Flow
  player_turn r o p g =
      if at o.cancel p
      then returned g.player_results
      else goes_on (check_counter r p (at o.instruction_counter p) g)

  abbrev pub next_player : DriverRules D → Observed D → PlayerId → Flow → Flow
  next_player r o p (returned results) = returned results
  next_player r o p (goes_on g) = player_turn r o p g

  -- The test after the loop over the players.
  abbrev pub check_over : Observed D → Flow → Flow
  check_over o (returned results) = returned results
  check_over o (goes_on g) =
      if g.instruction_count_exceeded || o.is_game_timed_out
      then returned g.player_results
      else goes_on g

  unfoldable pub players : DriverRules D → Observed D → Progress → Flow
  players r o g = check_over o (next_player r o player2 (player_turn r o player1 g))

  -- `ExecutePlayerCommands` and `UpdateMainState`.
  unfoldable pub turn :
      SyncerRules
      → TowerRules
      → Rules D
      → PerPlayer (PlayerState D)
      → PerPlayer Bool
      → State D
      → Result (State D)
  turn c tr r views skips s = do t ← execute_player_commands c views skips s; update tr r t.state

  -- The results at the end of the main loop.
  abbrev pub final_results : State D → PerPlayer PlayerResult
  final_results s = record {
    first = record { score = pos (get_score s player1); status = normal };
    second = record { score = pos (get_score s player2); status = normal };
  }

  -- What follows the loop over the players: the rest of the turn, and the turns after it.
  abbrev pub after_players :
      DriverRules D
      → State D
      → Observed D
      → (State D → PerPlayer (PlayerState D) → Progress → Result (State D × PerPlayer PlayerResult))
      → Flow
      → Result (State D × PerPlayer PlayerResult)
  after_players r s o next (returned results) = ok (s, results)
  after_players r s o next (goes_on g) = do
    s' ← turn r.syncer_rules r.tower_rules r.soldier_rules o.written g.skip_player_turn s
    views ← update_player_states s' o.written
    next s' views g

  -- The main loop from turn `i` on, with `n` turns left; the state and the results when it returns.
  unfoldable pub run :
      DriverRules D
      → Environment D
      → ℕ
      → ℕ
      → State D
      → PerPlayer (PlayerState D)
      → Progress
      → Result (State D × PerPlayer PlayerResult)
  run r env zero i s views g = ok (s, final_results s)
  run r env (suc n) i s views g =
      after_players r s (env i views) (run r env n (suc i)) (players r (env i views) g)

  unfoldable pub start :
      DriverRules D
      → Environment D
      → ℕ
      → State D
      → PerPlayer (PlayerState D)
      → Result (State D × PerPlayer PlayerResult)
  start r env max_no_turns s views = do
    shown ← update_player_states s views
    run r env max_no_turns 0 s shown started
