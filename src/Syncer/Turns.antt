-- ===== src/Syncer/Turns.antt =====
-- state/state_syncer/state_syncer.cpp: `ExecutePlayerCommands`, the commands of both players in their
-- order.
use codecharacter_simulator.Prelude.{
  ℕ, zero, suc, ltb, Bool, true, false, not, ◌&&◌, List, [], ◌∷◌, pos, negsuc, eqb_ℤ, length,
  get_elem?, Result, ok, undefined, or_err, ◌>>=◌, if◌then◌else◌,
}
use codecharacter_simulator.Players.{PlayerId, player1, player2, PerPlayer, at}
use codecharacter_simulator.Physics.Double.{Double}
use codecharacter_simulator.Physics.Vector.{of_ints, vne}
use codecharacter_simulator.Game.Defs.{State, get_money}
use codecharacter_simulator.Syncer.PlayerState.{PlayerMapElement, PlayerState}
use codecharacter_simulator.Syncer.Commands.{
  ErrorType, SyncerRules, Turn, log_error, move_soldier, attack_tower, attack_soldier, build_tower,
  upgrade_tower, suicide_tower,
}

-- `n` rounds of a loop whose body may throw, from the index `i` on.
unfoldable pub each_round {ℓ} : {S : Type ℓ} → ℕ → ℕ → (ℕ → S → Result S) → S → Result S
each_round zero i f s = ok s
each_round (suc n) i f s = f i s >>= each_round n (suc i) f

-- `std::count(flags.begin(), flags.end(), true)`.
abbrev pub count_true : List Bool → ℕ
count_true [] = 0
count_true (true ∷ bs) = suc (count_true bs)
count_true (false ∷ bs) = count_true bs

module _ {D : Double} where
  unfoldable pub tower_command :
      SyncerRules → PlayerId → PlayerState D → ℕ → Turn D → Result (Turn D)
  tower_command c p view i t = do
    x ← or_err (get_elem? view.towers i) undefined
    if x.upgrade_tower && x.suicide
        then ok (log_error t p ErrorType.no_multiple_tower_tasks)
        else if x.upgrade_tower
        then upgrade_tower c t p x.id i
        else if x.suicide
        then suicide_tower t p x.id i
        else ok t

  unfoldable pub soldier_command : PlayerId → PlayerState D → ℕ → Turn D → Result (Turn D)
  soldier_command p view i t = do
    x ← or_err (get_elem? view.soldiers i) undefined
    let is_attacking_tower = not (eqb_ℤ x.tower_target (negsuc 0))
    let is_attacking_soldier = not (eqb_ℤ x.soldier_target (negsuc 0))
    let is_moving = vne D x.destination (of_ints D (negsuc 0) (negsuc 0))
    if ltb 1 (count_true (is_attacking_soldier ∷ is_moving ∷ is_attacking_tower ∷ []))
        then ok (log_error t p ErrorType.no_multiple_soldier_tasks)
        else if is_attacking_tower
        then attack_tower t p x.id x.tower_target i
        else if is_attacking_soldier
        then attack_soldier t p x.id x.soldier_target i
        else if is_moving
        then move_soldier t p x.id x.destination i
        else ok t

  -- The loops over the cells of the player's map, row `j` from column `k` on, and rows from `j` on.
  unfoldable pub build_row :
      SyncerRules → PlayerId → ℕ → ℕ → List PlayerMapElement → Turn D → Result (Turn D)
  build_row c p j k [] t = ok t
  build_row c p j k (e ∷ es) t =
      (if e.build_tower then build_tower c t p (of_ints D (pos j) (pos k)) else ok t)
      >>= build_row c p j (suc k) es

  unfoldable pub build_rows :
      SyncerRules → PlayerId → ℕ → List (List PlayerMapElement) → Turn D → Result (Turn D)
  build_rows c p j [] t = ok t
  build_rows c p j (row ∷ rows) t = build_row c p j 0 row t >>= build_rows c p (suc j) rows

  -- The first outer loop for one player, and the second.
  unfoldable pub tower_commands :
      SyncerRules → PlayerId → PlayerState D → Bool → Turn D → Result (Turn D)
  tower_commands c p view skip t =
      if skip
      then ok t
      else each_round (length (at t.state.tower_managers p).towers) 0 (tower_command c p view) t

  unfoldable pub other_commands :
      SyncerRules → PlayerId → PlayerState D → Bool → Turn D → Result (Turn D)
  other_commands c p view skip t =
      if skip
      then ok t
      else (each_round (length (at t.state.soldiers p)) 0 (soldier_command p view)
            (record t { num_towers = length (at t.state.tower_managers p).towers })
          >>= build_rows c p 0 view.map)

  abbrev pub new_turn : State D → Turn D
  new_turn s = record {
    state = s;
    errors = [];
    player_money = get_money s;
    num_towers = 0;
    razed_towers = [];
  }

  unfoldable pub execute_player_commands :
      SyncerRules → PerPlayer (PlayerState D) → PerPlayer Bool → State D → Result (Turn D)
  execute_player_commands c views skips s = do
    t₁ ← tower_commands c player1 views.first skips.first (new_turn s)
    t₂ ← tower_commands c player2 views.second skips.second t₁
    t₃ ← other_commands c player1 views.first skips.first t₂
    other_commands c player2 views.second skips.second t₃
