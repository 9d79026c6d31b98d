-- ===== src/Game/Defs.antt =====
-- state/include/state/state.h and state.cpp: the state, its getters and the commands on it.
use codecharacter_simulator.Prelude.{
  ℕ, ◌+◌, ◌*◌, ◌&&◌, List, ℤ, pos, negsuc, ◌-ℤ◌, ltb_ℤ, leb_ℤ, Option, none, some, length,
  get_elem?, set, Result, ok, err, out_of_range, undefined, or_err, throw_if, ◌>>=◌, ◌>>◌,
  if◌then◌else◌, count_up, get_cell?, not, ltb,
}
use codecharacter_simulator.Players.{PlayerId, player1, player2, PerPlayer, at, put, enemy}
use codecharacter_simulator.Physics.Double.{Double}
use codecharacter_simulator.Physics.Vector.{Vector}
use codecharacter_simulator.Actor.Base.{ActorId}
use codecharacter_simulator.Actor.Soldier.{
  Soldier, ActorPtr, to_soldier, to_tower, move_to, attack_actor,
}
use codecharacter_simulator.Money.{MoneyManager, get_balance}
use codecharacter_simulator.Map.{GameMap, MapElement, get_size}
use codecharacter_simulator.Towers.Defs.{TowerManager}
use codecharacter_simulator.Towers.Handlers.{
  build_tower, upgrade_tower, suicide_tower, get_tower_by_id,
}

-- `State`; `next_id` is the static counter of `Actor`. The path planner, which all soldiers share,
-- stands in the rules of the soldiers.
pub record State (D : Double) : Type 0 where
  pub soldiers : PerPlayer (List (Soldier D))
  pub map : GameMap D
  pub money_manager : MoneyManager
  pub tower_managers : PerPlayer (TowerManager D)
  pub next_id : ActorId

-- `(int)player_id`.
abbrev pub player_index : PlayerId → ℕ
player_index player1 = 0
player_index player2 = 1

-- An `int` that indexes a vector.
abbrev pub to_index : ℤ → Result ℕ
to_index (pos n) = ok n
to_index (negsuc n) = err undefined

module _ {D : Double} where
  abbrev pub soldiers_per_team : State D → ℕ
  soldiers_per_team s = length s.soldiers.first

  -- The index of the soldier that `GetSoldierById` returns, in its player's vector.
  unfoldable pub soldier_index : State D → ActorId → PlayerId → Result ℕ
  soldier_index s id p = do
    throw_if (ltb_ℤ id (pos 0)) out_of_range
    throw_if (ltb_ℤ (pos (2 * soldiers_per_team s) -ℤ pos 1) id) out_of_range
    i ← to_index (id -ℤ pos (soldiers_per_team s * player_index p))
    throw_if (not (ltb i (length (at s.soldiers p)))) undefined
    ok i

  abbrev pub set_soldier : State D → PlayerId → ℕ → Soldier D → State D
  set_soldier s p i x = record s { soldiers = put s.soldiers p (set (at s.soldiers p) i x) }

  -- A call of a method of the soldier at an index.
  abbrev on_soldier : State D → PlayerId → ℕ → (Soldier D → Soldier D) → Result (State D)
  on_soldier s p i f = do
    x ← or_err (get_elem? (at s.soldiers p) i) undefined
    ok (set_soldier s p i (f x))

  unfoldable pub move_soldier : State D → PlayerId → ActorId → Vector D → Result (State D)
  move_soldier s p id position = do
    i ← soldier_index s id p
    on_soldier s p i (λ x. move_to x position)

  -- The target is a soldier if the identifier, as an unsigned number, is below the number of soldiers.
  unfoldable pub attack_target_of : State D → PlayerId → ActorId → Result ActorPtr
  attack_target_of s p id =
      if leb_ℤ (pos 0) id && ltb_ℤ id (pos (2 * soldiers_per_team s))
      then (soldier_index s id (enemy p) >>= λ j. ok (to_soldier (enemy p) j))
      else (get_tower_by_id (at s.tower_managers (enemy p)) id >>= λ t.
          ok (to_tower (enemy p) t.id))

  unfoldable pub attack_actor_by_id : State D → PlayerId → ActorId → ActorId → Result (State D)
  attack_actor_by_id s p soldier_id id = do
    i ← soldier_index s soldier_id p
    target ← attack_target_of s p id
    on_soldier s p i (λ x. attack_actor x target)

  abbrev pub with_manager : State D → PlayerId → TowerManager D → State D
  with_manager s p m = record s { tower_managers = put s.tower_managers p m }

  unfoldable pub request_build : State D → PlayerId → Vector D → State D
  request_build s p offset = with_manager s p (build_tower (at s.tower_managers p) offset)

  unfoldable pub request_upgrade : State D → PlayerId → ActorId → State D
  request_upgrade s p id = with_manager s p (upgrade_tower (at s.tower_managers p) id)

  unfoldable pub request_suicide : State D → PlayerId → ActorId → State D
  request_suicide s p id = with_manager s p (suicide_tower (at s.tower_managers p) id)

  abbrev pub get_money : State D → PerPlayer ℤ
  get_money s = record {
    first = get_balance s.money_manager player1;
    second = get_balance s.money_manager player2;
  }

  -- The score of a player for one cell.
  abbrev pub score_of : PlayerId → Option (MapElement D) → ℕ
  score_of p none = 0
  score_of p (some e) = if at e.ownership p then 1 else 0

  -- `GetScores`, for one player: the double loop over the cells of the map.
  unfoldable pub get_score : State D → PlayerId → ℕ
  get_score s p =
      count_up (get_size s.map) 0
        (λ i.
          count_up (get_size s.map) 0 (λ j n. n + score_of p (get_cell? s.map.map_elements i j)))
        0
