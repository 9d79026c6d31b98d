-- ===== src/View/Idle.antt =====
-- A player who writes nothing: `UpdatePlayerStates` and then `ExecutePlayerCommands`.
use codecharacter_simulator.Prelude.{
  ℕ, zero, suc, ◌+◌, ◌%◌, ◌<◌, ◌≤◌, ◌≡◌, refl, ap, ◌∙◌, Bool, true, false, List, [], ◌∷◌, length,
  negsuc, get_elem?, get_cell?, some, Result, ok, ◌>>=◌, >>=-ok, if◌then◌else◌, arith, pos,
}
use codecharacter_simulator.Players.{PlayerId, player1, player2, PerPlayer, at}
use codecharacter_simulator.Physics.Double.{Double, IsExact}
use codecharacter_simulator.Physics.Vector.{of_ints}
use codecharacter_simulator.Map.{get_size}
use codecharacter_simulator.Game.Defs.{State}
use codecharacter_simulator.Game.Lookup.{HasTeams}
use codecharacter_simulator.Syncer.PlayerState.{PlayerMapElement, PlayerState}
use codecharacter_simulator.Syncer.Commands.{SyncerRules, Turn, build_tower}
use codecharacter_simulator.Syncer.Turns.{
  each_round, tower_command, soldier_command, build_row, build_rows, tower_commands, other_commands,
  new_turn, execute_player_commands,
}
use codecharacter_simulator.View.Flip.{PlayerMap}
use codecharacter_simulator.View.Turned.{IsSquare}
use codecharacter_simulator.View.Actors.{seen_tower, seen_soldier}
use codecharacter_simulator.View.Defs.{update_player_states}
use codecharacter_simulator.View.Cells.{AllCells}
use codecharacter_simulator.View.Shown.{Shows, IsShown, update_player_states-Shows}
use codecharacter_simulator.View.Territory.{update_player_states-ShowsCell}

-- Rounds that change nothing.
each_round_stays {ℓ} :
    {S : Type ℓ} (n start : ℕ) (f : ℕ → S → Result S) (s : S)
    → ((i : ℕ) → start ≤ i → i < start + n → f i s ≡ ok s)
    → each_round n start f s ≡ ok s
unfolding each_round
each_round_stays zero start f s h = refl
each_round_stays (suc n) start f s h =
    ap (λ r. r >>= each_round n (suc start) f) (h start (omega arith) (omega arith))
    ∙ each_round_stays n (suc start) f s (λ i lo hi. h i (omega arith) (omega arith))

-- No cell asks for a tower.
abbrev NoWish : PlayerMap → Type 0
NoWish g = AllCells (λ i j x. x.build_tower ≡ false) g

module _ {D : Double} where
  build_row_stays :
      (c : SyncerRules) (p : PlayerId) (j k : ℕ) (row : List PlayerMapElement) (t : Turn D)
      → ((i : ℕ) (x : PlayerMapElement) → get_elem? row i ≡ some x → x.build_tower ≡ false)
      → build_row c p j k row t ≡ ok t
  unfolding build_row
  build_row_stays c p j k [] t h = refl
  build_row_stays c p j k (x ∷ row) t h =
      ap
        (λ b.
          (if b then build_tower c t p (of_ints D (pos j) (pos k)) else ok t)
          >>= build_row c p j (suc k) row)
        (h 0 x refl)
      ∙ build_row_stays c p j (suc k) row t (λ i. h (suc i))

  build_rows_stays :
      (c : SyncerRules) (p : PlayerId) (j : ℕ) (g : PlayerMap) (t : Turn D)
      → NoWish g
      → build_rows c p j g t ≡ ok t
  unfolding build_rows get_cell?
  build_rows_stays c p j [] t h = refl
  build_rows_stays c p j (row ∷ g) t h =
      ap (λ r. r >>= build_rows c p (suc j) g) (build_row_stays c p j 0 row t (h 0))
      ∙ build_rows_stays c p (suc j) g t (λ i. h (suc i))

  tower_command_stays :
      (c : SyncerRules) (s : State D) (p : PlayerId) (view : PlayerState D) (i : ℕ) (t : Turn D)
      → IsShown (at s.tower_managers p).towers (seen_tower p s.map) view.towers i
      → tower_command c p view i t ≡ ok t
  unfolding tower_command
  tower_command_stays c s p view i t (x, _, shown) = rw shown refl

  -- The turn after commands that came to nothing.
  abbrev pub counted : State D → ℕ → Turn D
  counted s k = record (new_turn s) { num_towers = k }

  module _ (reflexive : D.eqb (D.of_int (negsuc 0)) (D.of_int (negsuc 0)) ≡ true) where
    soldier_command_stays :
        (s : State D) (p : PlayerId) (view : PlayerState D) (i : ℕ) (t : Turn D)
        → IsShown (at s.soldiers p) (seen_soldier p s.map) view.soldiers i
        → soldier_command p view i t ≡ ok t
    unfolding soldier_command
    soldier_command_stays s p view i t (x, _, shown) = rw (shown, reflexive) refl

    tower_commands_stay :
        (c : SyncerRules) (s : State D) (p : PlayerId) (view : PlayerState D) (skip : Bool)
        → Shows s p view
        → tower_commands c p view skip (new_turn s) ≡ ok (new_turn s)
    unfolding tower_commands
    tower_commands_stay c s p view true h = refl
    tower_commands_stay c s p view false h =
        each_round_stays _ 0 (tower_command c p view) (new_turn s)
          (λ i lo hi. tower_command_stays c s p view i (new_turn s) (h.own_towers i (omega arith)))

    other_commands_stay :
        (c : SyncerRules) (s : State D) (p : PlayerId) (view : PlayerState D) (skip : Bool) (k : ℕ)
        → Shows s p view
        → NoWish view.map
        → other_commands c p view skip (counted s k)
          ≡ ok (counted s (if skip then k else length (at s.tower_managers p).towers))
    unfolding other_commands
    other_commands_stay c s p view true k h wish = refl
    other_commands_stay c s p view false k h wish =
        let t = counted s (length (at s.tower_managers p).towers) in
        ap (λ r. r >>= build_rows c p 0 view.map)
          (each_round_stays (length (at s.soldiers p)) 0 (soldier_command p view) t
            (λ i lo hi. soldier_command_stays s p view i t (h.own_soldiers i (omega arith))))
        ∙ build_rows_stays c p 0 view.map t wish

    -- Where `int`s convert, compare and are subtracted exactly and -1 equals itself, with two teams of
    -- the same size, on a square map with an even number of rows, as large as the players' arrays:
    -- when the two players write nothing into what `UpdatePlayerStates` has shown them, the commands
    -- of the next turn return, and leave the state as it was, log no error, spend no money and raze no
    -- tower, whether or not a player is skipped.
    pub idle_turn :
        (exact : IsExact D) (c : SyncerRules) (s : State D) (n : ℕ)
        (views shown : PerPlayer (PlayerState D)) (skips : PerPlayer Bool)
        → HasTeams s n
        → get_size s.map ≤ 2147483647
        → get_size s.map % 2 ≡ 0
        → ((q : PlayerId) → IsSquare (get_size s.map) (at views q).map)
        → update_player_states s views ≡ ok shown
        → (k : ℕ) × (execute_player_commands c shown skips s ≡ ok (counted s k))
    unfolding execute_player_commands
    idle_turn exact c s n views shown skips teams size even square e =
        let h = λ (p : PlayerId). update_player_states-Shows s n views shown p teams e in
        let wish = λ (p : PlayerId).
          λ (i j : ℕ) (x : PlayerMapElement) (found : get_cell? (at shown p).map i j ≡ some x).
            (update_player_states-ShowsCell exact s views shown p size even square e i j x
              found).owners.no_wish in
        let k₁ = if skips.first then 0 else length s.tower_managers.first.towers in
        let k₂ = if skips.second then k₁ else length s.tower_managers.second.towers in
        (
          k₂,
          >>=-ok (tower_commands c player1 shown.first skips.first (new_turn s)) _ (new_turn s)
              (tower_commands_stay c s player1 shown.first skips.first (h player1))
              (>>=-ok (tower_commands c player2 shown.second skips.second (new_turn s)) _
                (new_turn s) (tower_commands_stay c s player2 shown.second skips.second (h player2))
                (>>=-ok (other_commands c player1 shown.first skips.first (new_turn s)) _
                  (counted s k₁)
                  (other_commands_stay c s player1 shown.first skips.first 0 (h player1)
                    (wish player1))
                  (other_commands_stay c s player2 shown.second skips.second k₁ (h player2)
                    (wish player2)))),
        )
